-- ===== src/Master/Conservacion.antt =====
-- No query is lost or duplicated between the queues of planificacion.c.
use trabajo_practico_de_sist.Comun.{
  ℕ, ◌+◌, ◌<◌, ◌≡◌, refl, ap, ◌∙◌, List, [], ◌∷◌, ◌++◌, some, arith, inl, inr, Bool-cases,
  Option-cases, codes, ◌==◌, if◌then◌else◌,
}
use trabajo_practico_de_sist.Utils.Estructuras.{
  crear_respuesta_query, RespuestaQuery, CodigoAccion, creacion_query, espera_query,
  ejecucion_query, desalojo_query, respuesta_query, fin_query, otra,
}
use trabajo_practico_de_sist.Master.Estado.{veces, Colas, Maestro, Ordenadas}
use trabajo_practico_de_sist.Master.Consultas.{
  sacar, query_control_desconectado, cambiar_pc, cambiar_cod_accion_query, con_query,
  eliminar_worker_lista, mayor_prioridad, agregar_query_master_lista,
}
use trabajo_practico_de_sist.Master.Planificador.{
  atender_respuesta, manejar_desconexion_worker, desalojar_query, enviar_exit,
  enviar_respuesta_query, liberar_de, enviar_query, tomar_query,
}

-- How many times the query `x` is in the queues.
abbrev pub en_colas : ℕ → Colas → ℕ
en_colas x c =
    veces x c.cola_new
    + veces x c.cola_desalojo
    + veces x c.lista_ready
    + veces x c.lista_execute
    + veces x c.cola_exit

veces-agregar :
    (x q : ℕ) (l : List ℕ) → veces x (l ++ q ∷ []) ≡ veces x l + (if x == q then 1 else 0)
unfolding veces
veces-agregar x q [] = ground arith
veces-agregar x q (y ∷ l) = ground (arith, veces-agregar x q l)

veces-sacar :
    (x q : ℕ) (l : List ℕ)
    → 0 < veces q l
    → veces x (sacar q l) + (if x == q then 1 else 0) ≡ veces x l
unfolding veces sacar
veces-sacar x q [] h = absurd (omega (arith, h))
veces-sacar x q (y ∷ l) h = ground (arith, veces-sacar x q l)

enviar_respuesta-colas :
    (q : ℕ) (r : RespuestaQuery) (s : Maestro) → (enviar_respuesta_query q r s).colas ≡ s.colas
unfolding enviar_respuesta_query
enviar_respuesta-colas q r s = elim (Option-cases (s.consultas q)) [
  | inl e ↦ rw (enviar_respuesta_query, e) refl
  | inr (m, e) ↦ rw (enviar_respuesta_query, e) refl
]

enviar_exit-en_colas :
    (x q : ℕ) (r : RespuestaQuery) (s : Maestro)
    → 0 < veces q s.colas.lista_execute
    → en_colas x (enviar_exit q r s).colas ≡ en_colas x s.colas
unfolding enviar_exit cambiar_cod_accion_query
enviar_exit-en_colas x q r s h =
    rw (enviar_respuesta-colas q r s)
      (omega (arith, veces-sacar x q s.colas.lista_execute h, veces-agregar x q s.colas.cola_exit))

desalojar_query-en_colas :
    (x q : ℕ) (r : RespuestaQuery) (s : Maestro)
    → 0 < veces q s.colas.lista_execute
    → en_colas x (desalojar_query q r s).colas ≡ en_colas x s.colas
unfolding desalojar_query cambiar_cod_accion_query cambiar_pc
desalojar_query-en_colas x q r s h =
    elim (Bool-cases (query_control_desconectado q (cambiar_pc q r.pc s))) [
      | inl si ↦ rw si (
          omega
            (arith, veces-sacar x q s.colas.lista_execute h, veces-agregar x q s.colas.cola_exit))
      | inr no' ↦ rw no' (
          omega (
            arith,
            veces-sacar x q s.colas.lista_execute h,
            veces-agregar x q s.colas.cola_desalojo,
          ))
    ]

-- When a Worker answers for a query in execution, whatever its answer is, each query is in the
-- queues as often as before: preempted, ended or still in execution, it is not lost or duplicated.
pub atender_respuesta-en_colas :
    (w q x : ℕ) (r : RespuestaQuery) (s : Maestro)
    → 0 < veces q s.colas.lista_execute
    → en_colas x (atender_respuesta w q r s).colas ≡ en_colas x s.colas
unfolding atender_respuesta liberar_de cambiar_cod_accion_query
atender_respuesta-en_colas w q x r s h = por_codigo r.cod_respuesta refl
  where
    por_codigo :
        (c : CodigoAccion)
        → r.cod_respuesta ≡ c
        → en_colas x (atender_respuesta w q r s).colas ≡ en_colas x s.colas
    por_codigo desalojo_query e = rw e (
        desalojar_query-en_colas x q (record r { cod_respuesta = desalojo_query })
          (cambiar_cod_accion_query q desalojo_query s) h)
    por_codigo respuesta_query e = rw e (
        ap (en_colas x) (
          enviar_respuesta-colas q (record r { cod_respuesta = respuesta_query })
            (cambiar_cod_accion_query q respuesta_query s)))
    por_codigo fin_query e = rw e (
        enviar_exit-en_colas x q (record r { cod_respuesta = fin_query })
          (liberar_de w (cambiar_cod_accion_query q fin_query s)) h)
    por_codigo creacion_query e = rw e refl
    por_codigo espera_query e = rw e refl
    por_codigo ejecucion_query e = rw e refl
    por_codigo (otra n) e = rw e refl

-- When the Worker of a query in execution disconnects, each query is in the queues as often as before.
pub manejar_desconexion_worker-en_colas :
    (w q x : ℕ) (s : Maestro)
    → 0 < veces q s.colas.lista_execute
    → en_colas x (manejar_desconexion_worker w q s).colas ≡ en_colas x s.colas
unfolding manejar_desconexion_worker
manejar_desconexion_worker-en_colas w q x s h =
    let texto = codes "Desconexi" ++ (195 ∷ 179 ∷ codes "n de worker") in
    enviar_exit-en_colas x q (crear_respuesta_query texto 0 [] [] fin_query)
      (record s { workers = eliminar_worker_lista w s.workers }) h

module _ (lib : Ordenadas) where
  pub agregar_lista-veces :
      (x q : ℕ) (s : Maestro) (l : List ℕ)
      → veces x (agregar_query_master_lista lib s l q) ≡ veces x l + (if x == q then 1 else 0)
  unfolding agregar_query_master_lista
  agregar_lista-veces x q s l = elim (Bool-cases (s.fifo)) [
    | inl si ↦ rw si (veces-agregar x q l)
    | inr no' ↦ rw no' (omega (arith, lib.veces-add_sorted (mayor_prioridad s) x q l))
  ]

  pub enviar_query-colas : (q socket : ℕ) (s : Maestro) → (enviar_query q socket s).colas ≡ s.colas
  unfolding enviar_query
  enviar_query-colas q socket s = elim (Option-cases (s.consultas q)) [
    | inl e ↦ rw (enviar_query, e) refl
    | inr (m, e) ↦ rw (enviar_query, e) refl
  ]

  -- A Worker takes the first query of ready, where there is one, and each query is in the queues as
  -- often as before.
  pub tomar_query-en_colas :
      (w socket q : ℕ) (resto : List ℕ) (s : Maestro)
      → s.colas.lista_ready ≡ q ∷ resto
      → (s' : Maestro) × (tomar_query lib w socket s ≡ some (q, s'))
        × (s'.colas.lista_ready ≡ resto)
        × ((x : ℕ) → en_colas x s'.colas ≡ en_colas x s.colas)
  unfolding tomar_query cambiar_cod_accion_query veces
  tomar_query-en_colas w socket q resto s h = (
    enviar_query q socket s2,
    rw h refl,
    ap (λ c. c.lista_ready) (enviar_query-colas q socket s2),
    λ x.
        ap (en_colas x) (enviar_query-colas q socket s2)
        ∙ ground (arith, agregar_lista-veces x q s s.colas.lista_execute, h),
  )
    where
      s1 : Maestro
      s1 = record s {
        colas = record (s.colas) {
          lista_ready = resto;
          lista_execute = agregar_query_master_lista lib s s.colas.lista_execute q;
        };
      }

      s2 : Maestro
      s2 = record (cambiar_cod_accion_query q ejecucion_query s1) {
        workers = con_query w q s.workers;
      }
