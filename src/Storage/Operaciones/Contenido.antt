-- ===== src/Storage/Operaciones/Contenido.antt =====
-- operaciones.c: WRITE_BLOCK and READ_BLOCK.
use trabajo_practico_de_sist.Comun.{
  ℕ, List, [], ◌++◌, Option, none, some, get_elem?, set, if◌then◌else◌, ◌>>=◌, codes,
}
use trabajo_practico_de_sist.Utils.Estructuras.{
  Instruccion, CodigoInstruccion, correcto, error_insuficiente,
}
use trabajo_practico_de_sist.Storage.Estado.{Externos, Superblock, Fs}
use trabajo_practico_de_sist.Storage.Bloques.{
  buscar_bloque_libre, marcar_bloque_ocupado, agregar_hard_link, tiene_enlaces, eliminar_hard_link,
  escribir_bloque, leer_bloque,
}
use trabajo_practico_de_sist.Storage.Meta.{obtener_bloques_meta, modificar_bloques_meta}
use trabajo_practico_de_sist.Storage.Verificar.{
  file_de, tag_de, operacion, verificar_operaciones_base,
}
use trabajo_practico_de_sist.Storage.Operaciones.Base.{Salida, responder, si_valida}

module _ {B : Type 0} (ext : Externos B) (sb : Superblock) where
  -- The copy on write: the block goes to a free one, and the tag is linked to that.
  unfoldable pub escribir_en_libre : ℕ → Instruccion → List ℕ → ℕ → Fs B → Option (Fs B)
  unfolding marcar_bloque_ocupado
  escribir_en_libre libre ins bloques b s =
      let f = file_de ins in
      let t = tag_de ins in
      let i = ins.nro_bloque in
      do
        s1 ← escribir_bloque ext sb ins libre s
        s2 ← eliminar_hard_link ext sb b f t i s1
        let s3 = agregar_hard_link ext libre f t i s2
        s4 ← modificar_bloques_meta f t (set bloques i libre) s3
        some (marcar_bloque_ocupado ext libre s4)

  unfoldable pub texto_insuficiente : Instruccion → List ℕ
  unfolding operacion
  texto_insuficiente ins =
      operacion CodigoInstruccion.write_block
      ++ (codes "Espacio insuficiente para escribir sobre file:tag "
          ++ (file_de ins ++ (codes ":" ++ tag_de ins)))

  -- In place where the tag's is the only link, to a free block otherwise.
  unfoldable pub escribir_en : ℕ → Instruccion → List ℕ → Fs B → Salida B
  unfolding escribir_en_libre
  escribir_en b ins bloques s =
      if tiene_enlaces ext 2 b s
      then (do s1 ← escribir_bloque ext sb ins b s; responder sb correcto none [] s1)
      else elim (buscar_bloque_libre ext s) [
        | none ↦ responder sb error_insuficiente none (texto_insuficiente ins) s
        | some libre ↦
            escribir_en_libre libre ins bloques b s >>= λ s1. responder sb correcto none [] s1
      ]

  unfoldable pub write_block : Instruccion → Fs B → Salida B
  unfolding escribir_en
  write_block ins s =
      si_valida sb (verificar_operaciones_base CodigoInstruccion.write_block ins s) s (do
        bloques ← obtener_bloques_meta (file_de ins) (tag_de ins) s
        b ← get_elem? bloques ins.nro_bloque
        escribir_en b ins bloques s)

  unfoldable pub read_block : Instruccion → Fs B → Salida B
  read_block ins s =
      si_valida sb (verificar_operaciones_base CodigoInstruccion.read_block ins s) s (do
        bloques ← obtener_bloques_meta (file_de ins) (tag_de ins) s
        b ← get_elem? bloques ins.nro_bloque
        contenido ← leer_bloque ext sb b s
        responder sb correcto (some contenido) [] s)
