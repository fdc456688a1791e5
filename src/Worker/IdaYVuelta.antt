-- ===== src/Worker/IdaYVuelta.antt =====
-- worker/src/memoria.c: a READ of what a WRITE has just left in a page that is present.
use trabajo_practico_de_sist.Comun.{
  ℕ, ◌+◌, ◌/◌, ◌%◌, ◌<◌, ◌≤◌, ◌≡◌, ◌≢◌, refl, ap, ◌∙◌, List, [], ◌∷◌, ◌++◌, some, true, false,
  arith, ◌==◌, length, c_string, All, get_elem?-lt, get_elem?-set_self,
}
use trabajo_practico_de_sist.Utils.Estructuras.{Instruccion, read}
use trabajo_practico_de_sist.Worker.Estado.{
  Nodo, Entorno, cambiar_pagina, encontrar_tabla_con_file_tag,
}
use trabajo_practico_de_sist.Worker.Marcos.{leer_rango}
use trabajo_practico_de_sist.Worker.Bloques.{respuesta_por_defecto, es_acceso}
use trabajo_practico_de_sist.Worker.Escritura.{escribir_memoria}
use trabajo_practico_de_sist.Worker.Lectura.{leer_memoria}
use trabajo_practico_de_sist.Worker.Rangos.{leer_rango-sobre}
use trabajo_practico_de_sist.Worker.Escrito.{posicion, con_bytes}
use trabajo_practico_de_sist.Worker.Aciertos.{Presente, con_marca, escribir_memoria-presente}
use trabajo_practico_de_sist.Worker.Relectura.{Acierto, leer_memoria-presente}

-- WRITE is asked to write within a page that is present.
pub record Escribible {S : Type 0} (ins : Instruccion) (s : Nodo S) : Type 0 where
  pub pagina :
      Presente (c_string ins.file_tag) (ins.direccion_base / s.memoria.tam_bloque) s.memoria
  pub acceso : es_acceso ins.direccion_base ins.contenido_length s.memoria.tam_bloque ≡ true
  pub hay : 0 < ins.contenido_length
  pub largo : ins.contenido_length ≡ length ins.contenido
  pub cabe : ins.direccion_base % s.memoria.tam_bloque + ins.contenido_length ≤ s.memoria.tam_bloque
  pub entra :
      posicion s.memoria pagina.pagina.marco (ins.direccion_base % s.memoria.tam_bloque)
        + ins.contenido_length
      ≤ length s.memoria.interna

-- The READ of the bytes that a WRITE wrote.
abbrev pub relectura : Instruccion → Instruccion
relectura ins = record ins { codigo_ins = read; tamanio = ins.contenido_length }

-- What a WRITE leaves.
abbrev pub escrito : {S : Type 0} {ins : Instruccion} {s : Nodo S} → Escribible ins s → Nodo S
escrito {ins = ins} {s = s} a = record s {
  memoria =
      con_bytes (con_marca a.pagina true) a.pagina.pagina.marco
        (ins.direccion_base % s.memoria.tam_bloque) ins.contenido;
}

pub c_string-sin_nul :
    (bytes : List ℕ) → All (λ b. b ≢ 0) bytes → c_string (bytes ++ 0 ∷ []) ≡ bytes
c_string-sin_nul [] h = refl
c_string-sin_nul (b ∷ bytes) h =
    let e : (b == 0) ≡ false = ground (arith, h.0) in rw e (ap (◌∷◌ b) (c_string-sin_nul bytes h.1))

module _ {S : Type 0} (ent : Entorno S) where
  pub escribir_memoria-escrito :
      (ins : Instruccion) (s : Nodo S) (a : Escribible ins s)
      → escribir_memoria ent ins s ≡ some (escrito a, respuesta_por_defecto)
  escribir_memoria-escrito ins s a =
      escribir_memoria-presente ent ins s a.pagina a.acceso a.hay a.largo
        (omega (arith, a.cabe, a.largo)) (omega (arith, a.entra, a.largo))

-- The page is still present after the WRITE, and its frame holds the contents.
unfoldable escrito-Acierto :
    {S : Type 0} (ins : Instruccion) (s : Nodo S) (a : Escribible ins s)
    → Acierto (relectura ins) (escrito a)
unfolding cambiar_pagina encontrar_tabla_con_file_tag
escrito-Acierto ins s a = record {
  pagina = record {
    tabla = a.pagina.tabla;
    hallada = a.pagina.hallada;
    viva = a.pagina.viva;
    direccion = a.pagina.direccion;
    en_tabla = a.pagina.en_tabla;
    pagina = record (a.pagina.pagina) { modificada = true };
    en_heap =
        get_elem?-set_self s.memoria.paginas a.pagina.direccion
          (record (a.pagina.pagina) { modificada = true })
          (get_elem?-lt s.memoria.paginas a.pagina.direccion a.pagina.en_heap);
    presente = a.pagina.presente;
  };
  acceso = a.acceso;
  hay = a.hay;
  cabe = a.cabe;
  bytes = ins.contenido;
  en_marco =
      ap (leer_rango (escrito a).memoria.interna _) a.largo
      ∙ leer_rango-sobre s.memoria.interna _ ins.contenido (omega (arith, a.entra, a.largo));
}

-- A WRITE within a page that is present, of contents with no NUL, and then the READ of as many bytes
-- at the same address: both succeed, the READ gives the contents back, and nothing is asked of
-- Storage.
pub escribir_memoria-leer :
    {S : Type 0} (ent : Entorno S) (ins : Instruccion) (s : Nodo S) (a : Escribible ins s)
    → All (λ b. b ≢ 0) ins.contenido
    → (s1 : Nodo S) × (s2 : Nodo S) × (escribir_memoria ent ins s
        ≡ some (s1, respuesta_por_defecto))
      × (leer_memoria ent (relectura ins) s1 ≡ some (s2, respuesta_por_defecto, ins.contenido))
      × (s2.almacen ≡ s.almacen)
unfolding escrito-Acierto
escribir_memoria-leer ent ins s a nul =
    let b = escrito-Acierto ins s a in
    (
      escrito a,
      record (escrito a) { memoria = con_marca b.pagina false },
      escribir_memoria-escrito ent ins s a,
      leer_memoria-presente ent (relectura ins) (escrito a) b
          ∙ ap
              (λ t. some (
                record (escrito a) { memoria = con_marca b.pagina false },
                respuesta_por_defecto,
                t,
              ))
              (c_string-sin_nul ins.contenido nul),
      refl,
    )
