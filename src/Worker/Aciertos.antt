-- ===== src/Worker/Aciertos.antt =====
-- worker/src/memoria.c: escribirMemoria and leerMemoria on a page that is present, when the bytes do
-- not go past its end.
use trabajo_practico_de_sist.Comun.{
  ℕ, ◌+◌, ◌/◌, ◌%◌, ◌<◌, ◌≤◌, ◌≡◌, refl, ap, ◌∙◌, List, [], some, Bool, true, false, arith, leb,
  ◌==◌, length, get_elem?, take-length, c_string, get_elem?-lt,
}
use native.Mathlib.Nat.{div-eq_of_lt-le}
use trabajo_practico_de_sist.Utils.Estructuras.{Instruccion}
use trabajo_practico_de_sist.Worker.Estado.{
  TablaDePaginas, Pagina, Memoria, Nodo, Entorno, cambiar_pagina, encontrar_tabla_con_file_tag,
  tabla_en,
}
use trabajo_practico_de_sist.Worker.Marcos.{leer_rango}
use trabajo_practico_de_sist.Worker.Bloques.{
  sigue, respuesta_por_defecto, marcos_necesarios, es_acceso, luego,
}
use trabajo_practico_de_sist.Worker.Escritura.{
  agregar_para_escribir, escribir_segun_precencia, escribir_marco, tabla_para_escribir,
  extender_para_escribir, escribir_en_pagina, escribir_paginas, respuesta_final, escribir_memoria,
}
use trabajo_practico_de_sist.Worker.Rangos.{leer_rango_lem}
use trabajo_practico_de_sist.Worker.Escrito.{posicion, con_bytes, escribir_contenido_en_marco_lem}

-- The page `num_pag` of a file:tag is present.
pub record Presente (file_tag : List ℕ) (num_pag : ℕ) (m : Memoria) : Type 0 where
  pub tabla : TablaDePaginas
  pub hallada : encontrar_tabla_con_file_tag file_tag m ≡ some tabla
  pub viva : tabla_en tabla.direccion m.tablas ≡ some tabla
  pub direccion : ℕ
  pub en_tabla : get_elem? tabla.paginas num_pag ≡ some direccion
  pub pagina : Pagina
  pub en_heap : get_elem? m.paginas direccion ≡ some pagina
  pub presente : pagina.precencia ≡ true

-- The frame of the page that an address falls in, and the memory with the mark of a page changed.
abbrev pub con_marca :
    {file_tag : List ℕ} {num_pag : ℕ} {m : Memoria} → Presente file_tag num_pag m → Bool → Memoria
con_marca {m = m} a marca = cambiar_pagina a.direccion (record a.pagina { modificada = marca }) m

pub un_marco : (bytes tam : ℕ) → 0 < bytes → bytes ≤ tam → marcos_necesarios bytes tam ≡ 1
unfolding marcos_necesarios
un_marco bytes tam h k = div-eq_of_lt-le tam (omega (arith, h, k)) (omega (arith, h, k))

pub hay_pagina :
    {file_tag : List ℕ} {num_pag : ℕ} {m : Memoria} (a : Presente file_tag num_pag m)
    → leb (length a.tabla.paginas) num_pag ≡ false
hay_pagina {num_pag = num_pag} a =
    let h = get_elem?-lt a.tabla.paginas num_pag a.en_tabla in ground (arith, h)

leer_todo : (c : List ℕ) → leer_rango c 0 (length c) ≡ some c
leer_todo c = leer_rango_lem c 0 (length c) (omega arith) ∙ ap some (take-length c)

escribir_marco-con_bytes :
    {S : Type 0} (c : List ℕ) (marco d : ℕ) (s : Nodo S)
    → d + length c ≤ s.memoria.tam_bloque
    → posicion s.memoria marco d + length c ≤ length s.memoria.interna
    → escribir_marco (c, length c) marco d s
      ≡ some (record s { memoria = con_bytes s.memoria marco d c }, sigue ([], 0))
unfolding escribir_marco
escribir_marco-con_bytes c marco d s h k =
    rw (escribir_contenido_en_marco_lem c marco d s.memoria h k) refl

module _ {S : Type 0} (ent : Entorno S) (id : ℕ) (file_tag : List ℕ) where
  tabla-presente :
      (num_pag : ℕ) (s : Nodo S) (a : Presente file_tag num_pag s.memoria)
      → tabla_para_escribir ent id file_tag num_pag s ≡ some (s, sigue a.tabla.direccion)
  unfolding tabla_para_escribir
  tabla-presente num_pag s a = rw (a.hallada, tabla_para_escribir) refl

  extender-presente :
      (num_pag : ℕ) (s : Nodo S) (a : Presente file_tag num_pag s.memoria)
      → extender_para_escribir ent id file_tag a.tabla.direccion num_pag s ≡ some (s, sigue tt)
  unfolding extender_para_escribir agregar_para_escribir
  extender-presente num_pag s a =
      rw a.viva (
        ap (λ b. agregar_para_escribir ent id file_tag b a.tabla.direccion num_pag s)
          (hay_pagina a))

  en_pagina :
      (num_pag d : ℕ) (c : List ℕ) (s : Nodo S) (a : Presente file_tag num_pag s.memoria)
      → escribir_en_pagina ent id file_tag a.tabla.direccion num_pag d (c, length c) s
        ≡ escribir_marco (c, length c) a.pagina.marco d (record s { memoria = con_marca a true })
  unfolding escribir_en_pagina escribir_segun_precencia
  en_pagina num_pag d c s a =
      rw (a.viva, a.en_tabla, a.en_heap)
        (ap
          (λ b.
            escribir_segun_precencia ent id file_tag b a.direccion a.pagina num_pag d (c, length c)
              s)
          a.presente)

  escribir_en_pagina-presente :
      (num_pag d : ℕ) (c : List ℕ) (s : Nodo S) (a : Presente file_tag num_pag s.memoria)
      → d + length c ≤ s.memoria.tam_bloque
      → posicion s.memoria a.pagina.marco d + length c ≤ length s.memoria.interna
      → escribir_en_pagina ent id file_tag a.tabla.direccion num_pag d (c, length c) s
        ≡ some
            (record s { memoria = con_bytes (con_marca a true) a.pagina.marco d c }, sigue ([], 0))
  unfolding escribir_en_pagina escribir_segun_precencia
  escribir_en_pagina-presente num_pag d c s a h k =
      en_pagina num_pag d c s a
      ∙ escribir_marco-con_bytes c a.pagina.marco d (record s { memoria = con_marca a true }) h k

  escribir_paginas-presente :
      (num_pag d : ℕ) (c : List ℕ) (s : Nodo S) (a : Presente file_tag num_pag s.memoria)
      → d + length c ≤ s.memoria.tam_bloque
      → posicion s.memoria a.pagina.marco d + length c ≤ length s.memoria.interna
      → escribir_paginas ent id file_tag 1 a.tabla.direccion num_pag d (c, length c) s
        ≡ some (record s { memoria = con_bytes (con_marca a true) a.pagina.marco d c }, sigue tt)
  unfolding escribir_paginas luego
  escribir_paginas-presente num_pag d c s a h k =
      rw (extender-presente num_pag s a) (rw (escribir_en_pagina-presente num_pag d c s a h k) refl)

module _ {S : Type 0} (ent : Entorno S) where
  -- A write that stays within a page that is present asks nothing of Storage: the page is marked and
  -- the bytes of its frame from the displacement on are the contents.
  pub escribir_memoria-presente :
      (ins : Instruccion) (s : Nodo S)
      (a : Presente (c_string ins.file_tag) (ins.direccion_base / s.memoria.tam_bloque) s.memoria)
      → es_acceso ins.direccion_base ins.contenido_length s.memoria.tam_bloque ≡ true
      → 0 < ins.contenido_length
      → ins.contenido_length ≡ length ins.contenido
      → ins.direccion_base % s.memoria.tam_bloque + length ins.contenido ≤ s.memoria.tam_bloque
      → posicion s.memoria a.pagina.marco (ins.direccion_base % s.memoria.tam_bloque)
          + length ins.contenido
        ≤ length s.memoria.interna
      → escribir_memoria ent ins s
        ≡ some (
          record s {
            memoria =
                con_bytes
                  (con_marca a true)
                  a.pagina.marco
                  (ins.direccion_base % s.memoria.tam_bloque)
                  ins.contenido;
          },
          respuesta_por_defecto,
        )
  unfolding escribir_memoria luego respuesta_final
  escribir_memoria-presente ins s a acceso hay largo cabe entra =
      let vacia : (length ins.contenido == 0) ≡ false = ground (arith, hay, largo) in
      rw acceso (
        rw largo (
          rw (leer_todo ins.contenido) (
            rw
              (tabla-presente ent ins.query_id (c_string ins.file_tag)
                (ins.direccion_base / s.memoria.tam_bloque) s a)
              (rw vacia (
                rw
                  (un_marco (length ins.contenido) s.memoria.tam_bloque (omega (arith, hay, largo))
                    (omega (arith, cabe)))
                  (rw
                    (escribir_paginas-presente ent ins.query_id (c_string ins.file_tag)
                      (ins.direccion_base / s.memoria.tam_bloque)
                      (ins.direccion_base % s.memoria.tam_bloque) ins.contenido s a cabe entra)
                    refl))))))
