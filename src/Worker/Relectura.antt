-- ===== src/Worker/Relectura.antt =====
-- worker/src/memoria.c: leerMemoria on a page that is present, and a READ after a WRITE.
use trabajo_practico_de_sist.Comun.{
  ℕ, ◌+◌, ◌-◌, ◌/◌, ◌%◌, ◌<◌, ◌≤◌, ◌≡◌, refl, ap, ◌∙◌, List, [], ◌∷◌, ◌++◌, some, true, false,
  arith, ◌==◌, c_string,
}
use trabajo_practico_de_sist.Utils.Estructuras.{Instruccion}
use trabajo_practico_de_sist.Worker.Estado.{Nodo, Entorno, cambiar_pagina}
use trabajo_practico_de_sist.Worker.Marcos.{leer_rango, leer_contenido_para_master}
use trabajo_practico_de_sist.Worker.Bloques.{sigue, respuesta_por_defecto, es_acceso, luego}
use trabajo_practico_de_sist.Worker.Lectura.{
  agregar_para_leer, leer_segun_precencia, leer_marco, tabla_para_leer, extender_para_leer,
  leer_de_pagina, leer_paginas, lectura_final, leer_memoria,
}
use trabajo_practico_de_sist.Worker.Escrito.{posicion, en_marco_todo}
use trabajo_practico_de_sist.Worker.Aciertos.{Presente, con_marca, un_marco, hay_pagina}

leer_marco-rango :
    {S : Type 0} (n marco d : ℕ) (lectura bytes : List ℕ) (s : Nodo S)
    → d + n ≤ s.memoria.tam_bloque
    → leer_rango s.memoria.interna (posicion s.memoria marco d) n ≡ some bytes
    → leer_marco (n, lectura) marco d s
      ≡ some (s, sigue (n - n, lectura ++ c_string (bytes ++ 0 ∷ [])))
unfolding leer_marco leer_contenido_para_master
leer_marco-rango n marco d lectura bytes s h e =
    rw (en_marco_todo s.memoria.tam_bloque n d h) (rw e refl)

module _ {S : Type 0} (ent : Entorno S) (id : ℕ) (file_tag : List ℕ) where
  tabla-presente :
      (num_pag : ℕ) (s : Nodo S) (a : Presente file_tag num_pag s.memoria)
      → tabla_para_leer ent id file_tag num_pag s ≡ some (s, sigue a.tabla.direccion)
  unfolding tabla_para_leer
  tabla-presente num_pag s a = rw (a.hallada, tabla_para_leer) refl

  extender-presente :
      (num_pag : ℕ) (s : Nodo S) (a : Presente file_tag num_pag s.memoria)
      → extender_para_leer ent id file_tag a.tabla.direccion num_pag s ≡ some (s, sigue tt)
  unfolding extender_para_leer agregar_para_leer
  extender-presente num_pag s a =
      rw a.viva
        (ap (λ b. agregar_para_leer ent id file_tag b a.tabla.direccion num_pag s) (hay_pagina a))

  leer_de_pagina-presente :
      (num_pag d n : ℕ) (bytes : List ℕ) (s : Nodo S) (a : Presente file_tag num_pag s.memoria)
      → d + n ≤ s.memoria.tam_bloque
      → leer_rango s.memoria.interna (posicion s.memoria a.pagina.marco d) n ≡ some bytes
      → leer_de_pagina ent id file_tag a.tabla.direccion num_pag d (n, []) s
        ≡ some (record s { memoria = con_marca a false }, sigue (n - n, c_string (bytes ++ 0 ∷ [])))
  unfolding leer_de_pagina leer_segun_precencia cambiar_pagina
  leer_de_pagina-presente num_pag d n bytes s a h e =
      rw (a.viva, a.en_tabla, a.en_heap)
        (ap (λ b. leer_segun_precencia ent id file_tag b a.direccion a.pagina num_pag d (n, []) s)
          a.presente)
      ∙ leer_marco-rango n a.pagina.marco d [] bytes (record s { memoria = con_marca a false }) h e

  leer_paginas-presente :
      (num_pag d n : ℕ) (bytes : List ℕ) (s : Nodo S) (a : Presente file_tag num_pag s.memoria)
      → d + n ≤ s.memoria.tam_bloque
      → leer_rango s.memoria.interna (posicion s.memoria a.pagina.marco d) n ≡ some bytes
      → leer_paginas ent id file_tag 1 a.tabla.direccion num_pag d (n, []) s
        ≡ some (record s { memoria = con_marca a false }, sigue (n - n, c_string (bytes ++ 0 ∷ [])))
  unfolding leer_paginas luego
  leer_paginas-presente num_pag d n bytes s a h e =
      rw (extender-presente num_pag s a)
        (rw (leer_de_pagina-presente num_pag d n bytes s a h e) refl)

-- READ is asked for the bytes of a page that is present.
pub record Acierto {S : Type 0} (ins : Instruccion) (s : Nodo S) : Type 0 where
  pub pagina :
      Presente (c_string ins.file_tag) (ins.direccion_base / s.memoria.tam_bloque) s.memoria
  pub acceso : es_acceso ins.direccion_base ins.tamanio s.memoria.tam_bloque ≡ true
  pub hay : 0 < ins.tamanio
  pub cabe : ins.direccion_base % s.memoria.tam_bloque + ins.tamanio ≤ s.memoria.tam_bloque
  pub bytes : List ℕ
  pub en_marco :
      leer_rango s.memoria.interna
        (posicion s.memoria pagina.pagina.marco (ins.direccion_base % s.memoria.tam_bloque))
        ins.tamanio
      ≡ some bytes

module _ {S : Type 0} (ent : Entorno S) where
  pub leer_memoria-presente :
      (ins : Instruccion) (s : Nodo S) (a : Acierto ins s)
      → leer_memoria ent ins s
        ≡ some (
          record s { memoria = con_marca a.pagina false },
          respuesta_por_defecto,
          c_string (a.bytes ++ 0 ∷ []),
        )
  unfolding leer_memoria luego lectura_final
  leer_memoria-presente ins s a =
      let h = a.hay in
      let vacia : (ins.tamanio == 0) ≡ false = ground (arith, h) in
      let num_pag = ins.direccion_base / s.memoria.tam_bloque in
      let d = ins.direccion_base % s.memoria.tam_bloque in
      let ft = c_string ins.file_tag in
      rw a.acceso (
        rw (tabla-presente ent ins.query_id ft num_pag s a.pagina) (
          rw vacia (
            rw (un_marco ins.tamanio s.memoria.tam_bloque h (omega (arith, a.cabe))) (
              rw
                (leer_paginas-presente ent ins.query_id ft num_pag d ins.tamanio a.bytes s a.pagina
                  a.cabe a.en_marco)
                refl))))
