-- ===== src/Worker/Cierres.antt =====
-- worker/src/ejecucion.c: the answers that close a query (FIN_QUERY, DESALOJO_QUERY).
use trabajo_practico_de_sist.Comun.{
  bind-some, some_inj, ℕ, ◌+◌, ◌≡◌, refl, ap, sym, ◌∙◌, inl, inr, List, [], ◌∷◌, ◌++◌, Option, some,
  none, arith, ◌>>=◌, Bool-cases, c_string,
}
use trabajo_practico_de_sist.Utils.Estructuras.{
  Instruccion, CodigoInstruccion, create, truncate, tag, commit, flush, delete, end, read, write,
  write_block, read_block, otro, CodigoAccion, desalojo_query, fin_query, RespuestaQuery,
  RespuestaStorage, Query, crear_respuesta_query,
}
use trabajo_practico_de_sist.Worker.Estado.{Nodo, Entorno}
use trabajo_practico_de_sist.Worker.Bloques.{es_correcto}
use trabajo_practico_de_sist.Worker.Marcos.{pedir_a_storage}
use trabajo_practico_de_sist.Worker.Escritura.{escribir_memoria}
use trabajo_practico_de_sist.Worker.Lectura.{leer_memoria}
use trabajo_practico_de_sist.Worker.Persistencia.{persistir_memoria}
use trabajo_practico_de_sist.Worker.Ejecucion.{
  Ejecutor, enviar_al_master, liberar_query_actual, cerrar_query, procesar_error,
  confirmar_desalojo, con_nodo, reenviar, ejecutar_read, ejecutar_commit, ejecutar_end,
  segun_instruccion, ejecutar_instruccion,
}

abbrev pub es_cierre : CodigoAccion → ℕ
es_cierre fin_query = 1
es_cierre desalojo_query = 1
es_cierre _ = 0

-- How many of the answers close a query.
abbrev pub cierres : List RespuestaQuery → ℕ
cierres [] = 0
cierres (r ∷ rs) = es_cierre r.cod_respuesta + cierres rs

abbrev pub abierta : Option Query → ℕ
abierta none = 0
abierta (some q) = 1

-- The closing answers sent, and one more while a query is open.
abbrev pub cuenta_cierres : {S : Type 0} → Ejecutor S → ℕ
cuenta_cierres e = cierres e.al_master + abierta e.query_actual

cierres-agregar :
    (rs : List RespuestaQuery) (r : RespuestaQuery)
    → cierres (rs ++ r ∷ []) ≡ cierres rs + es_cierre r.cod_respuesta
cierres-agregar [] r = omega arith
cierres-agregar (x ∷ rs) r = omega (arith, cierres-agregar rs r)

-- A query that is closed was open, and is closed after it.
pub cerrar-cuenta_cierres :
    {S : Type 0} (r : RespuestaQuery) (e e' : Ejecutor S)
    → es_cierre r.cod_respuesta ≡ 1
    → cerrar_query r e ≡ some e'
    → (cuenta_cierres e' ≡ cuenta_cierres e) × (e'.query_actual ≡ none)
unfolding cerrar_query liberar_query_actual enviar_al_master
cerrar-cuenta_cierres r e e' c h =
    let b = bind-some (liberar_query_actual e) (λ e1. some (enviar_al_master r e1)) h in
    let d = bind-some e.query_actual (λ q. some (record e { query_actual = none })) b.1 in
    let fin : enviar_al_master r (record e { query_actual = none }) ≡ e' =
      ap (enviar_al_master r) (some_inj d.2) ∙ some_inj b.2 in
    (
      sym (ap cuenta_cierres fin) ∙ omega (arith, cierres-agregar e.al_master r, c, ap abierta d.1),
      sym (ap (λ x. x.query_actual) fin),
    )

pub procesar_error-cuenta_cierres :
    {S : Type 0} (r : RespuestaStorage) (file etiqueta : List ℕ) (e e' : Ejecutor S)
    → procesar_error r file etiqueta e ≡ some e'
    → (cuenta_cierres e' ≡ cuenta_cierres e) × (e'.query_actual ≡ none)
unfolding procesar_error crear_respuesta_query
procesar_error-cuenta_cierres r file etiqueta e e' h = cerrar-cuenta_cierres _ e e' refl h

pub confirmar_desalojo-cuenta_cierres :
    {S : Type 0} (pc : ℕ) (file etiqueta : List ℕ) (e e' : Ejecutor S)
    → confirmar_desalojo pc file etiqueta e ≡ some e'
    → (cuenta_cierres e' ≡ cuenta_cierres e) × (e'.query_actual ≡ none)
unfolding confirmar_desalojo crear_respuesta_query
confirmar_desalojo-cuenta_cierres pc file etiqueta e e' h = cerrar-cuenta_cierres _ e e' refl h

module _ {S : Type 0} (ent : Entorno S) where
  con_nodo-cuenta_cierres :
      (o : Option (Nodo S × RespuestaStorage)) (e e' : Ejecutor S) (r : RespuestaStorage)
      → o >>= (λ fin. some (con_nodo ent e fin)) ≡ some (e', r)
      → cuenta_cierres e' ≡ cuenta_cierres e
  unfolding con_nodo
  con_nodo-cuenta_cierres o e e' r h =
      let b = bind-some o (λ fin. some (con_nodo ent e fin)) h in
      sym (ap (λ x. cuenta_cierres x.0) (some_inj b.2))

  reenviar-cuenta_cierres :
      (ins : Instruccion) (e e' : Ejecutor S) (r : RespuestaStorage)
      → reenviar ent ins e ≡ some (e', r)
      → cuenta_cierres e' ≡ cuenta_cierres e
  unfolding reenviar
  reenviar-cuenta_cierres ins e e' r h =
      con_nodo-cuenta_cierres (pedir_a_storage ent ins e.nodo) e e' r h

  -- READ sends the text, which closes nothing, or changes nothing but the memory.
  read-cuenta_cierres :
      (ins : Instruccion) (pc : ℕ) (e e' : Ejecutor S) (r : RespuestaStorage)
      → ejecutar_read ent ins pc e ≡ some (e', r)
      → cuenta_cierres e' ≡ cuenta_cierres e
  unfolding ejecutar_read enviar_al_master crear_respuesta_query
  read-cuenta_cierres ins pc e e' r h =
      let b = bind-some (leer_memoria ent ins e.nodo) _ h in
      elim (Bool-cases (es_correcto b.0.1.cod_respuesta)) [
        | inl si ↦
            let fin = some_inj (rw si at b.2) in
            sym (ap (λ x. cuenta_cierres x.0) fin) ∙ omega (arith, cierres-agregar e.al_master _)
        | inr no' ↦ let fin = some_inj (rw no' at b.2) in sym (ap (λ x. cuenta_cierres x.0) fin)
      ]

  commit-cuenta_cierres :
      (ins : Instruccion) (e e' : Ejecutor S) (r : RespuestaStorage)
      → ejecutar_commit ent ins e ≡ some (e', r)
      → cuenta_cierres e' ≡ cuenta_cierres e
  unfolding ejecutar_commit
  commit-cuenta_cierres ins e e' r h =
      let b = bind-some (persistir_memoria ent ins.query_id (c_string ins.file_tag) e.nodo) _ h in
      elim (Bool-cases (es_correcto b.0.1.cod_respuesta)) [
        | inl si ↦ reenviar-cuenta_cierres ins (record e { nodo = b.0.0 }) e' r (rw si at b.2)
        | inr no' ↦ sym (ap (λ x. cuenta_cierres x.0) (some_inj (rw no' at b.2)))
      ]

  end-cuenta_cierres :
      (ins : Instruccion) (pc : ℕ) (e e' : Ejecutor S) (r : RespuestaStorage)
      → ejecutar_end ent ins pc e ≡ some (e', r)
      → cuenta_cierres e' ≡ cuenta_cierres e
  unfolding ejecutar_end crear_respuesta_query
  end-cuenta_cierres ins pc e e' r h =
      let b = bind-some (cerrar_query _ e) _ h in
      sym (ap (λ x. cuenta_cierres x.0) (some_inj b.2)) ∙ (cerrar-cuenta_cierres _ e b.0 refl b.1).0

  segun-cuenta_cierres :
      (codigo : CodigoInstruccion) (ins : Instruccion) (pc : ℕ) (e e' : Ejecutor S)
      (r : RespuestaStorage)
      → segun_instruccion ent codigo ins pc e ≡ some (e', r)
      → cuenta_cierres e' ≡ cuenta_cierres e
  unfolding segun_instruccion
  segun-cuenta_cierres create ins pc e e' r h = reenviar-cuenta_cierres ins e e' r h
  segun-cuenta_cierres truncate ins pc e e' r h = reenviar-cuenta_cierres ins e e' r h
  segun-cuenta_cierres write ins pc e e' r h =
      con_nodo-cuenta_cierres (escribir_memoria ent ins e.nodo) e e' r h
  segun-cuenta_cierres read ins pc e e' r h = read-cuenta_cierres ins pc e e' r h
  segun-cuenta_cierres tag ins pc e e' r h = reenviar-cuenta_cierres ins e e' r h
  segun-cuenta_cierres commit ins pc e e' r h = commit-cuenta_cierres ins e e' r h
  segun-cuenta_cierres flush ins pc e e' r h =
      con_nodo-cuenta_cierres (persistir_memoria ent ins.query_id (c_string ins.file_tag) e.nodo) e
        e' r h
  segun-cuenta_cierres delete ins pc e e' r h = reenviar-cuenta_cierres ins e e' r h
  segun-cuenta_cierres end ins pc e e' r h = end-cuenta_cierres ins pc e e' r h
  segun-cuenta_cierres write_block ins pc e e' r h = absurd (cc h)
  segun-cuenta_cierres read_block ins pc e e' r h = absurd (cc h)
  segun-cuenta_cierres (otro n) ins pc e e' r h = absurd (cc h)

  pub ejecutar_instruccion-cuenta_cierres :
      (ins : Instruccion) (pc : ℕ) (e e' : Ejecutor S) (r : RespuestaStorage)
      → ejecutar_instruccion ent ins pc e ≡ some (e', r)
      → cuenta_cierres e' ≡ cuenta_cierres e
  unfolding ejecutar_instruccion
  ejecutar_instruccion-cuenta_cierres ins pc e e' r h =
      segun-cuenta_cierres ins.codigo_ins ins pc e e' r h
