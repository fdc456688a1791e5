-- ===== src/Ejemplos/Casos.antt =====
-- The theorems at work on the small disk, and on concrete messages.
use trabajo_practico_de_sist.Comun.{
  ◌≡◌, refl, List, [], ◌∷◌, some, length, codes, eq_bytes, ◌⊎◌, arith, Option-cases, inl, inr,
}
use trabajo_practico_de_sist.Utils.Estructuras.{
  RespuestaStorage, Instruccion, CodigoInstruccion, create, truncate, tag, commit, delete,
}
use trabajo_practico_de_sist.Storage.Estado.{Fs}
use trabajo_practico_de_sist.Storage.Bloques.{buscar_bloque_libre}
use trabajo_practico_de_sist.Storage.Bloques.Laws.{EsPrimero, buscar_bloque_libre-EsPrimero}
use trabajo_practico_de_sist.Storage.Operaciones.Archivos.{
  create_file, truncate_file, tag_file, delete_tag,
}
use trabajo_practico_de_sist.Storage.Operaciones.Commit.{commit_file}
use trabajo_practico_de_sist.Storage.Operaciones.Contenido.{write_block, read_block}
use trabajo_practico_de_sist.Storage.Servidor.{Servidor, atender, atender_worker}
use trabajo_practico_de_sist.Storage.Inicio.{iniciar_file_system}
use trabajo_practico_de_sist.Storage.Invariante.Bien.{Bien}
use trabajo_practico_de_sist.Storage.Correccion.Vista.{Resultado}
use trabajo_practico_de_sist.Storage.Correccion.Crear.{Creado, create_file-Creado}
use trabajo_practico_de_sist.Storage.Correccion.Truncar.{Truncado, truncate_file-Truncado}
use trabajo_practico_de_sist.Storage.Correccion.Copiar.{Copiado, tag_file-Copiado}
use trabajo_practico_de_sist.Storage.Correccion.Borrar.{Borrado, delete_tag-Borrado}
use trabajo_practico_de_sist.Storage.Correccion.Leer.{Leido, read_block-Leido}
use trabajo_practico_de_sist.Storage.Correccion.Comitear.{
  Comiteado, Conservado, SinColisiones, commit_file-Comiteado, commit_file-Conservado,
}
use trabajo_practico_de_sist.Storage.Correccion.Escritura.{Escrito, SinEspacio, SinHash}
use trabajo_practico_de_sist.Storage.Correccion.Escribir.{write_block-Escrito}
use trabajo_practico_de_sist.Storage.Correccion.Servicio.{Permitidos, atender_worker-Bien}
use trabajo_practico_de_sist.Storage.Correccion.Arranque.{iniciar_file_system-Bien}
use trabajo_practico_de_sist.Ejemplos.Disco.{Mapa, externos, superblock, pedido, disco, disco-Bien}

abbrev crear_b : Instruccion
crear_b = pedido create (codes "b") 0 0 []

abbrev truncar_a : Instruccion
truncar_a = pedido truncate (codes "a") 6 0 []

abbrev copiar_a : Instruccion
copiar_a = pedido tag (codes "a") 0 0 []

abbrev comitear_a : Instruccion
comitear_a = pedido commit (codes "a") 0 0 []

abbrev borrar_a : Instruccion
borrar_a = pedido delete (codes "a") 0 0 []

abbrev leer_a : Instruccion
leer_a = pedido CodigoInstruccion.read_block (codes "a") 0 1 []

abbrev escribir_a : Instruccion
escribir_a = pedido CodigoInstruccion.write_block (codes "a") 0 0 (7 ∷ 8 ∷ [])

create_file-Creado_example :
    Resultado externos superblock crear_b disco
      (create_file externos superblock crear_b disco)
      (Creado externos superblock crear_b disco)
create_file-Creado_example = create_file-Creado externos superblock crear_b disco disco-Bien

truncate_file-Truncado_example :
    Resultado externos superblock truncar_a disco
      (truncate_file externos superblock truncar_a disco)
      (Truncado externos superblock truncar_a disco)
truncate_file-Truncado_example =
    truncate_file-Truncado externos superblock truncar_a disco disco-Bien (omega arith)

tag_file-Copiado_example :
    Resultado externos superblock copiar_a disco
      (tag_file externos superblock copiar_a disco)
      (Copiado externos superblock copiar_a disco)
tag_file-Copiado_example = tag_file-Copiado externos superblock copiar_a disco disco-Bien

delete_tag-Borrado_example :
    Resultado externos superblock borrar_a disco
      (delete_tag externos superblock borrar_a disco)
      (Borrado externos superblock borrar_a disco)
unfolding eq_bytes
delete_tag-Borrado_example = delete_tag-Borrado externos superblock borrar_a disco disco-Bien refl

read_block-Leido_example :
    Resultado externos superblock leer_a disco
      (read_block externos superblock leer_a disco)
      (Leido externos superblock leer_a disco)
read_block-Leido_example = read_block-Leido externos superblock leer_a disco disco-Bien

commit_file-Comiteado_example :
    Resultado externos superblock comitear_a disco
      (commit_file externos superblock comitear_a disco)
      (Comiteado externos superblock comitear_a disco)
commit_file-Comiteado_example =
    commit_file-Comiteado externos superblock comitear_a disco disco-Bien

sin_colisiones : SinColisiones externos superblock disco
sin_colisiones b b' c c' h h' e = ground (arith, h, h', e)

commit_file-Conservado_example :
    Resultado externos superblock comitear_a disco
      (commit_file externos superblock comitear_a disco)
      (Conservado externos superblock comitear_a disco)
commit_file-Conservado_example =
    commit_file-Conservado externos superblock comitear_a disco disco-Bien sin_colisiones

sin_hash : SinHash escribir_a disco
sin_hash h b e u q = absurd (ground (arith, q))

write_block-Escrito_example :
    Resultado externos superblock escribir_a disco
      (write_block externos superblock escribir_a disco)
      (λ s' r.
        Escrito externos superblock escribir_a disco s' r
        ⊎ SinEspacio externos superblock escribir_a disco s' r)
write_block-Escrito_example =
    write_block-Escrito externos superblock escribir_a disco disco-Bien (omega arith) sin_hash

abbrev servidor : Servidor Mapa
servidor = record { fs = disco; cantidad_workers = 1 }

permitido : Permitidos externos superblock (escribir_a ∷ []) disco
permitido = (
  (omega arith, sin_hash),
  elim (Option-cases (atender externos superblock escribir_a disco)) [
    | inl e ↦ rw e tt
    | inr (r, e) ↦ rw e tt
  ],
)

atender_worker-Bien_example :
    (s' : Servidor Mapa) × (rs : List RespuestaStorage) × (atender_worker externos superblock
        (escribir_a ∷ [])
        servidor
      ≡ some (s', rs))
    × Bien externos superblock s'.fs
    × (s'.cantidad_workers ≡ 1)
    × (length rs ≡ 1)
atender_worker-Bien_example =
    atender_worker-Bien externos superblock (escribir_a ∷ []) servidor disco-Bien permitido

iniciar_file_system-Bien_example :
    (s : Fs Mapa) × (iniciar_file_system externos superblock ≡ some s) × Bien externos superblock s
iniciar_file_system-Bien_example = iniciar_file_system-Bien externos superblock (omega arith)

buscar_bloque_libre-EsPrimero_example :
    EsPrimero externos (disco.bitmap) 0 8 (buscar_bloque_libre externos disco)
buscar_bloque_libre-EsPrimero_example = buscar_bloque_libre-EsPrimero externos disco
