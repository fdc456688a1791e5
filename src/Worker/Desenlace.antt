-- ===== src/Worker/Desenlace.antt =====
-- worker/src/ejecucion.c: how a run of queryInterpreter over a query's file ends.
use trabajo_practico_de_sist.Comun.{
  bind-some, some_inj, ◌≤◌, [], ◌∷◌, arith, ℕ, zero, suc, ◌+◌, ◌-◌, ◌≡◌, refl, ap, sym, ◌∙◌, ◌⊎◌,
  inl, inr, List, Option, some, none, Bool-cases, Option-cases, c_string,
}
use trabajo_practico_de_sist.Utils.Estructuras.{
  Instruccion, Query, CodigoAccion, creacion_query, espera_query, ejecucion_query, desalojo_query,
  respuesta_query, fin_query, otra,
}
use trabajo_practico_de_sist.Worker.Estado.{Entorno}
use trabajo_practico_de_sist.Worker.Bloques.{es_correcto}
use trabajo_practico_de_sist.Worker.Persistencia.{persistir_memoria_completa}
use trabajo_practico_de_sist.Worker.Instrucciones.{interpretar_instruccion, leer_linea_por_indice}
use trabajo_practico_de_sist.Worker.Ejecucion.{
  Ejecutor, procesar_error, hubo_interrupcion, ejecutar_instruccion,
}
use trabajo_practico_de_sist.Worker.Interprete.{
  Marcha, sigue_linea, sale, Llegadas, recibir_segun, escuchar_master, atender_mensajes, desalojar,
  verificar_interrupcion, ejecutar_linea, ejecutar_desde, query_interpreter, crear_path_final,
}
use trabajo_practico_de_sist.Worker.Cierres.{
  cuenta_cierres, cierres, abierta, procesar_error-cuenta_cierres,
  confirmar_desalojo-cuenta_cierres, ejecutar_instruccion-cuenta_cierres,
}

abbrev pub es_ejecucion : CodigoAccion → ℕ
es_ejecucion ejecucion_query = 1
es_ejecucion _ = 0

-- How many of the messages bring a query to execute.
abbrev pub ejecuciones : List Query → ℕ
ejecuciones [] = 0
ejecuciones (q ∷ qs) = es_ejecucion q.cod_accion + ejecuciones qs

abbrev pub de_linea : Llegadas → ℕ
de_linea l = ejecuciones l.antes + ejecuciones l.tras_instruccion + ejecuciones l.tras_interrupcion

-- The queries to execute that `llegadas` has for `rondas` lines, from the line `pc` on.
abbrev pub recibidas : (llegadas : ℕ → Llegadas) (rondas pc : ℕ) → ℕ
recibidas llegadas zero pc = 0
recibidas llegadas (suc rondas) pc = de_linea (llegadas pc) + recibidas llegadas rondas (pc + 1)

-- No query is lost from the count, and at most `k` enter it.
abbrev Entran : {S : Type 0} → ℕ → Ejecutor S → Ejecutor S → Type 0
Entran k e e' = (cuenta_cierres e ≤ cuenta_cierres e') × (cuenta_cierres e' ≤ cuenta_cierres e + k)

abierta_le : (o : Option Query) → abierta o ≤ 1
abierta_le none = omega arith
abierta_le (some q) = omega arith

recibir-Entran :
    {S : Type 0} (codigo : CodigoAccion) (q : Query) (e : Ejecutor S)
    → Entran (es_ejecucion codigo) e (recibir_segun codigo q e)
unfolding recibir_segun
recibir-Entran creacion_query q e = (omega arith, omega arith)
recibir-Entran ejecucion_query q e =
    (omega (arith, abierta_le e.query_actual), omega (arith, abierta_le e.query_actual))
recibir-Entran desalojo_query q e = (omega arith, omega arith)
recibir-Entran respuesta_query q e = (omega arith, omega arith)
recibir-Entran fin_query q e = (omega arith, omega arith)
recibir-Entran espera_query q e = (omega arith, omega arith)
recibir-Entran (otra n) q e = (omega arith, omega arith)

mensajes-Entran :
    {S : Type 0} (qs : List Query) (e : Ejecutor S)
    → Entran (ejecuciones qs) e (atender_mensajes qs e)
unfolding atender_mensajes escuchar_master
mensajes-Entran [] e = (omega arith, omega arith)
mensajes-Entran (q ∷ qs) e =
    let a = recibir-Entran q.cod_accion q e in
    let b = mensajes-Entran qs (escuchar_master q e) in
    (omega (arith, a.0, b.0), omega (arith, a.1, b.1))

module _ {S : Type 0} (ent : Entorno S) where
  desalojar-cuenta_cierres :
      (id pc : ℕ) (ins : Instruccion) (e e' : Ejecutor S)
      → desalojar ent id pc ins e ≡ some e'
      → (cuenta_cierres e' ≡ cuenta_cierres e) × (e'.query_actual ≡ none)
  unfolding desalojar
  desalojar-cuenta_cierres id pc ins e e' h =
      let b = bind-some (persistir_memoria_completa ent id e.nodo) _ h in
      let e1 = record e { nodo = b.0.0 } in
      elim (Bool-cases (es_correcto b.0.1.cod_respuesta)) [
        | inl si ↦
            confirmar_desalojo-cuenta_cierres (pc + 1) ins.nombre_file ins.tag e1 e' (rw si at b.2)
        | inr no' ↦
            procesar_error-cuenta_cierres b.0.1 ins.nombre_file ins.tag e1 e' (rw no' at b.2)
      ]

  verificar-Entran :
      (id pc : ℕ) (ins : Instruccion) (qs : List Query) (e e' : Ejecutor S) (marcha : Marcha)
      → verificar_interrupcion ent id pc ins qs e ≡ some (e', marcha)
      → Entran (ejecuciones qs) e e'
  unfolding verificar_interrupcion hubo_interrupcion
  verificar-Entran id pc ins qs e e' marcha h = elim (Bool-cases e.interrupcion) [
    | inl si ↦
        let e1 = atender_mensajes qs (hubo_interrupcion e).1 in
        let b = bind-some (desalojar ent id pc ins e1) _ (rw si at h) in
        let fin = ap (λ x. cuenta_cierres x.0) (some_inj b.2) in
        let c = (desalojar-cuenta_cierres id pc ins e1 b.0 b.1).0 in
        let m = mensajes-Entran qs (hubo_interrupcion e).1 in
        (omega (arith, fin, c, m.0), omega (arith, fin, c, m.1))
    | inr no' ↦
        let fin = ap (λ x. cuenta_cierres x.0) (some_inj (rw no' at h)) in
        (omega (arith, fin), omega (arith, fin))
  ]

  linea-Entran :
      (linea : List ℕ) (id pc : ℕ) (llegan : Llegadas) (e e' : Ejecutor S) (marcha : Marcha)
      → ejecutar_linea ent linea id pc llegan e ≡ some (e', marcha)
      → Entran (de_linea llegan) e e'
  unfolding ejecutar_linea
  linea-Entran linea id pc llegan e e' marcha h =
      let a = bind-some (interpretar_instruccion ent.partir linea id) _ h in
      let e1 = atender_mensajes llegan.antes e in
      let b = bind-some (ejecutar_instruccion ent a.0 pc e1) _ a.2 in
      let e2 = atender_mensajes llegan.tras_instruccion b.0.0 in
      let m = mensajes-Entran llegan.antes e in
      let hecho = ejecutar_instruccion-cuenta_cierres ent a.0 pc e1 b.0.0 b.0.1 b.1 in
      let n = mensajes-Entran llegan.tras_instruccion b.0.0 in
      elim (Bool-cases (es_correcto b.0.1.cod_respuesta)) [
        | inl si ↦
            let v =
              verificar-Entran id pc a.0 llegan.tras_interrupcion e2 e' marcha (rw si at b.2) in
            (omega (arith, m.0, hecho, n.0, v.0), omega (arith, m.1, hecho, n.1, v.1))
        | inr no' ↦
            let c = bind-some (procesar_error b.0.1 a.0.nombre_file a.0.tag e2) _ (rw no' at b.2) in
            let fin = ap (λ x. cuenta_cierres x.0) (some_inj c.2) in
            let p = (procesar_error-cuenta_cierres b.0.1 a.0.nombre_file a.0.tag e2 c.0 c.1).0 in
            (omega (arith, m.0, hecho, n.0, p, fin), omega (arith, m.1, hecho, n.1, p, fin))
      ]

  desde-Entran :
      (rondas : ℕ) (archivo : List ℕ) (id pc : ℕ) (llegadas : ℕ → Llegadas) (e e' : Ejecutor S)
      (marcha : Marcha)
      → ejecutar_desde ent rondas archivo id pc llegadas e ≡ some (e', marcha)
      → Entran (recibidas llegadas rondas pc) e e'
  unfolding ejecutar_desde
  desde-Entran zero archivo id pc llegadas e e' marcha h =
      let fin = ap (λ x. cuenta_cierres x.0) (some_inj h) in
      (omega (arith, fin), omega (arith, fin))
  desde-Entran (suc rondas) archivo id pc llegadas e e' marcha h =
      elim (Option-cases (leer_linea_por_indice archivo pc)) [
        | inl nada ↦
            let fin = ap (λ x. cuenta_cierres x.0) (some_inj (rw (nada, ejecutar_desde) at h)) in
            (omega (arith, fin), omega (arith, fin))
        | inr (linea, hay) ↦
            let b =
              bind-some (ejecutar_linea ent linea id pc (llegadas pc) e) _
                (rw (hay, ejecutar_desde) at h) in
            let una = linea-Entran linea id pc (llegadas pc) e b.0.0 b.0.1 b.1 in
            elim (marcha-cases b.0.1) [
              | inl si ↦
                  let t =
                    desde-Entran rondas archivo id (pc + 1) llegadas b.0.0 e' marcha
                      (rw si at b.2) in
                  (omega (arith, una.0, t.0), omega (arith, una.1, t.1))
              | inr no' ↦
                  let fin = ap (λ x. cuenta_cierres x.0) (some_inj (rw no' at b.2)) in
                  (omega (arith, una.0, fin), omega (arith, una.1, fin))
            ]
      ]
    where
      marcha-cases : (m : Marcha) → (m ≡ sigue_linea) ⊎ (m ≡ sale)
      marcha-cases sigue_linea = inl refl
      marcha-cases sale = inr refl

-- A run of queryInterpreter that ends without a crash, whatever its lines are, whatever Storage
-- replies and whatever messages of the Master are taken during it: the closing answers (FIN_QUERY or
-- DESALOJO_QUERY) that it sends, and the query that is open after it if there is one, are together
-- at least one and at most one more than the queries to execute that `llegadas` brings for its
-- rounds, from the line of the query's pc on. So, when it brings none, the run sends one closing
-- answer if queryActual is NULL after it, and none if it is not.
pub query_interpreter-cierres :
    {S : Type 0} (ent : Entorno S) (abrir : List ℕ → Option (List ℕ)) (path_querys : List ℕ)
    (rondas : ℕ) (llegadas : ℕ → Llegadas) (q : Query) (e e' : Ejecutor S) (marcha : Marcha)
    → e.query_actual ≡ some q
    → query_interpreter ent abrir path_querys rondas llegadas e ≡ some (e', marcha)
    → (cierres e.al_master + 1 ≤ cierres e'.al_master + abierta e'.query_actual)
      × (cierres e'.al_master + abierta e'.query_actual
          ≤ cierres e.al_master + 1 + recibidas llegadas rondas q.pc)
unfolding query_interpreter
query_interpreter-cierres ent abrir path_querys rondas llegadas q e e' marcha hay h =
    let a = bind-some e.query_actual _ h in
    let mismo : a.0.pc ≡ q.pc = ap (λ x. x.pc) (some_inj (sym a.1 ∙ hay)) in
    let b = bind-some (abrir (crear_path_final path_querys (c_string a.0.archivo_query))) _ a.2 in
    let t =
      desde-Entran ent rondas b.0 a.0.id a.0.pc llegadas (record e { sem_query = e.sem_query - 1 })
        e' marcha b.2 in
    let una = ap abierta a.1 in
    let iguales = ap (recibidas llegadas rondas) mismo in
    (omega (arith, t.0, una), omega (arith, t.1, una, iguales))
