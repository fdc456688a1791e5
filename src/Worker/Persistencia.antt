-- ===== src/Worker/Persistencia.antt =====
-- worker/src/memoria.c: persistirMemoria and persistirMemoriaCompleta.
use trabajo_practico_de_sist.Comun.{
  ℕ, ◌+◌, Option, none, some, true, false, ◌>>=◌, List, [], ◌∷◌, get_elem?,
}
use trabajo_practico_de_sist.Utils.Estructuras.{RespuestaStorage}
use trabajo_practico_de_sist.Worker.Estado.{
  TablaDePaginas, Nodo, Entorno, cambiar_pagina, encontrar_tabla_con_file_tag,
}
use trabajo_practico_de_sist.Worker.Marcos.{realizar_escritura_de_bloque}
use trabajo_practico_de_sist.Worker.Bloques.{es_correcto, respuesta_por_defecto}

module _ {S : Type 0} (ent : Entorno S) (id_query : ℕ) where
  -- The loop of persistirMemoria from the page `num_pag` on, with the last reply.
  unfoldable pub persistir_paginas :
      (file_tag : List ℕ) (num_pag : ℕ)
      → List ℕ
      → RespuestaStorage
      → Nodo S
      → Option (Nodo S × RespuestaStorage)
  unfolding realizar_escritura_de_bloque cambiar_pagina es_correcto
  persistir_paginas file_tag num_pag [] r s = some (s, r)
  persistir_paginas file_tag num_pag (pagina ∷ resto) r s = do
    p ← get_elem? s.memoria.paginas pagina
    elim p.modificada [
      | false ↦ persistir_paginas file_tag (num_pag + 1) resto r s
      | true ↦ do
        (s1, r1) ← realizar_escritura_de_bloque ent file_tag num_pag p.marco id_query s
        let s2 = record s1 {
          memoria = cambiar_pagina pagina (record p { modificada = false }) s1.memoria;
        }
        elim (es_correcto r1.cod_respuesta) [
          | true ↦ persistir_paginas file_tag (num_pag + 1) resto r1 s2
          | false ↦ some (s2, r1)
        ]
    ]

  unfoldable pub persistir_memoria : List ℕ → Nodo S → Option (Nodo S × RespuestaStorage)
  unfolding respuesta_por_defecto encontrar_tabla_con_file_tag persistir_paginas
  persistir_memoria file_tag s = elim (encontrar_tabla_con_file_tag file_tag s.memoria) [
    | none ↦ some (s, respuesta_por_defecto)
    | some tabla ↦ persistir_paginas file_tag 0 tabla.paginas respuesta_por_defecto s
  ]

  -- The loop of persistirMemoriaCompleta, with the last reply.
  unfoldable pub persistir_tablas :
      List TablaDePaginas → RespuestaStorage → Nodo S → Option (Nodo S × RespuestaStorage)
  unfolding persistir_memoria es_correcto
  persistir_tablas [] r s = some (s, r)
  persistir_tablas (tabla ∷ resto) r s = do
    (s1, r1) ← persistir_memoria tabla.file_tag s
    elim (es_correcto r1.cod_respuesta) [
      | true ↦ persistir_tablas resto r1 s1
      | false ↦ some (s1, r1)
    ]

  unfoldable pub persistir_memoria_completa : Nodo S → Option (Nodo S × RespuestaStorage)
  unfolding respuesta_por_defecto persistir_tablas
  persistir_memoria_completa s = persistir_tablas s.memoria.tablas respuesta_por_defecto s
