-- ===== src/Master/Rondas.antt =====
-- planificacion.c: a round of the thread ready, from obtenerSiguienteQueryMasterReady to
-- verificarDesalojo.
use trabajo_practico_de_sist.Comun.{
  bind-some, some_inj, ℕ, ◌+◌, ◌-◌, ◌≡◌, refl, ap, sym, subst, ◌∙◌, ◌⊎◌, List, [], ◌∷◌, Option,
  some, none, arith, inl, inr, Bool-cases, ◌==◌, if◌then◌else◌, ltb, ◌&&◌, get_elem?, length, true,
  false, Bool,
}
use trabajo_practico_de_sist.Utils.Estructuras.{espera_query, desalojo_query}
use trabajo_practico_de_sist.Master.Estado.{veces, Colas, Maestro, Ordenadas}
use trabajo_practico_de_sist.Master.Consultas.{
  cambiar_cod_accion_query, obtener_prioridad_query, menor_int, obtener_worker_ejecutando_query,
  todos_los_workers_tienen_query, agregar_query_master_lista,
}
use trabajo_practico_de_sist.Master.Planificador.{
  enviar_desalojo, desalojar_si, verificar_desalojo, obtener_siguiente, agregar_ready, ready,
}
use trabajo_practico_de_sist.Master.Conservacion.{en_colas, agregar_lista-veces, enviar_query-colas}

-- `q` was the first of colaDesalojo, or of colaNew with colaDesalojo empty, and is taken from there.
abbrev pub Sale : ℕ → Colas → Colas → Type 0
Sale q c c' =
    (resto : List ℕ) × (((c.cola_desalojo ≡ q ∷ resto)
        × (c'.cola_desalojo ≡ resto)
        × (c'.cola_new ≡ c.cola_new))
      ⊎ ((c.cola_desalojo ≡ [])
          × (c.cola_new ≡ q ∷ resto)
          × (c'.cola_new ≡ resto)
          × (c'.cola_desalojo ≡ [])))

abbrev OtrasIguales : Colas → Colas → Type 0
OtrasIguales c c' =
    (c'.lista_ready ≡ c.lista_ready)
    × (c'.lista_execute ≡ c.lista_execute)
    × (c'.cola_exit ≡ c.cola_exit)

Sale-ready :
    (q : ℕ) (c c' : Colas) (l : List ℕ) → Sale q c c' → Sale q c (record c' { lista_ready = l })
Sale-ready q c c' l h = h

module _ (lib : Ordenadas) where
  enviar_desalojo-colas :
      (q : ℕ) (s s' : Maestro) → enviar_desalojo q s ≡ some s' → s'.colas ≡ s.colas
  unfolding enviar_desalojo cambiar_cod_accion_query
  enviar_desalojo-colas q s s' h =
      let w = bind-some (obtener_worker_ejecutando_query q s.workers) _ h in
      sym (ap (λ x. x.colas) (some_inj w.2))
      ∙ enviar_query-colas lib q w.0.socket_worker (cambiar_cod_accion_query q desalojo_query s)

  desalojar_si-colas : (q : ℕ) (s s' : Maestro) → desalojar_si q s ≡ some s' → s'.colas ≡ s.colas
  unfolding desalojar_si
  desalojar_si-colas q s s' h =
      let u = bind-some (get_elem? s.colas.lista_execute (length s.colas.lista_execute - 1)) _ h in
      let p = bind-some (obtener_prioridad_query q s) _ u.2 in
      let p' = bind-some (obtener_prioridad_query u.0 s) _ p.2 in
      elim (Bool-cases (menor_int p.0 p'.0)) [
        | inl si ↦ enviar_desalojo-colas u.0 s s' (rw si at p'.2)
        | inr no' ↦ sym (ap (λ x. x.colas) (some_inj (rw no' at p'.2)))
      ]

  -- A step that is only taken on one side of a test.
  solo_si :
      (b : Bool) (s s' : Maestro) (o : Option Maestro)
      → (o ≡ some s' → s'.colas ≡ s.colas)
      → (if b then o else some s) ≡ some s'
      → s'.colas ≡ s.colas
  solo_si true s s' o f h = f h
  solo_si false s s' o f h = sym (ap (λ x. x.colas) (some_inj h))

  solo_si_no :
      (b : Bool) (s s' : Maestro) (o : Option Maestro)
      → (o ≡ some s' → s'.colas ≡ s.colas)
      → (if b then some s else o) ≡ some s'
      → s'.colas ≡ s.colas
  solo_si_no true s s' o f h = sym (ap (λ x. x.colas) (some_inj h))
  solo_si_no false s s' o f h = f h

  verificar_desalojo-colas :
      (q : ℕ) (s s' : Maestro) → verificar_desalojo q s ≡ some s' → s'.colas ≡ s.colas
  unfolding verificar_desalojo
  verificar_desalojo-colas q s s' h =
      solo_si_no s.fifo s s' _
        (λ e.
          solo_si (ltb 0 (length s.colas.lista_execute) && todos_los_workers_tienen_query s.workers)
            s s' _ (λ i. desalojar_si-colas q s s' i) e)
        h

  -- The choice of obtenerSiguienteQueryMasterReady, given the two queues.
  siguiente_con : Maestro → (desalojo nuevas : List ℕ) → Option (ℕ × Maestro)
  siguiente_con s (q ∷ resto) nuevas =
      some (q, record s { colas = record (s.colas) { cola_desalojo = resto } })
  siguiente_con s [] (q ∷ resto) =
      some (q, record s { colas = record (s.colas) { cola_new = resto } })
  siguiente_con s [] [] = none

  -- What obtenerSiguienteQueryMasterReady took its query `q` from.
  siguiente_con_lem :
      (q : ℕ) (s s1 : Maestro) (desalojo nuevas : List ℕ)
      → s.colas.cola_desalojo ≡ desalojo
      → s.colas.cola_new ≡ nuevas
      → siguiente_con s desalojo nuevas ≡ some (q, s1)
      → Sale q s.colas s1.colas × OtrasIguales s.colas s1.colas
  unfolding siguiente_con
  siguiente_con_lem q s s1 (y ∷ resto) nuevas d n h =
      let e = some_inj h in
      let q' = ap (λ p. p.0) e in
      let c = ap (λ p. p.1.colas) e in
      (
        (
          resto,
          inl (
            d ∙ ap (λ z. z ∷ resto) q',
            sym (ap (λ k. k.cola_desalojo) c),
            sym (ap (λ k. k.cola_new) c),
          ),
        ),
        (
          sym (ap (λ k. k.lista_ready) c),
          sym (ap (λ k. k.lista_execute) c),
          sym (ap (λ k. k.cola_exit) c),
        ),
      )
  siguiente_con_lem q s s1 [] (y ∷ resto) d n h =
      let e = some_inj h in
      let q' = ap (λ p. p.0) e in
      let c = ap (λ p. p.1.colas) e in
      (
        (
          resto,
          inr (
            d,
            n ∙ ap (λ z. z ∷ resto) q',
            sym (ap (λ k. k.cola_new) c),
            sym (ap (λ k. k.cola_desalojo) c) ∙ d,
          ),
        ),
        (
          sym (ap (λ k. k.lista_ready) c),
          sym (ap (λ k. k.lista_execute) c),
          sym (ap (λ k. k.cola_exit) c),
        ),
      )
  siguiente_con_lem q s s1 [] [] d n h = absurd (cc h)

  siguiente-con :
      (s : Maestro) → obtener_siguiente s ≡ siguiente_con s s.colas.cola_desalojo s.colas.cola_new
  unfolding obtener_siguiente siguiente_con
  siguiente-con s = por_colas s.colas.cola_desalojo s.colas.cola_new
    where
      por_colas :
          (d n : List ℕ)
          → (elim d [
            | q ∷ resto ↦ some (q, record s { colas = record (s.colas) { cola_desalojo = resto } })
            | [] ↦ elim n [
              | q ∷ resto ↦ some (q, record s { colas = record (s.colas) { cola_new = resto } })
              | [] ↦ none
            ]
          ])
            ≡ siguiente_con s d n
      por_colas (q ∷ resto) n = refl
      por_colas [] (q ∷ resto) = refl
      por_colas [] [] = refl

  cuenta_con :
      (x q : ℕ) (c c' : Colas)
      → Sale q c c'
      → c'.lista_execute ≡ c.lista_execute
      → c'.cola_exit ≡ c.cola_exit
      → veces x c'.lista_ready ≡ veces x c.lista_ready + (if x == q then 1 else 0)
      → en_colas x c' ≡ en_colas x c
  unfolding veces
  cuenta_con x q c c' (resto, inl (d, d', n)) e f r =
      omega
        (arith, r, ap (veces x) d, ap (veces x) d', ap (veces x) n, ap (veces x) e, ap (veces x) f)
  cuenta_con x q c c' (resto, inr (d, n, n', d')) e f r = omega (
    arith,
    r,
    ap (veces x) d,
    ap (veces x) d',
    ap (veces x) n,
    ap (veces x) n',
    ap (veces x) e,
    ap (veces x) f,
  )

  -- A round of the thread ready, where it ends, takes the first query of the preempted ones, or the
  -- first new one if no preempted one waits, and ready has it once more than before and the others
  -- as often as before. The queries in execution and those that left are the same, and each query is
  -- in the queues as often as before.
  pub ready-en_colas :
      (s s' : Maestro)
      → ready lib s ≡ some s'
      → (q : ℕ) × Sale q s.colas s'.colas
        × ((x : ℕ)
            → (veces x s'.colas.lista_ready
                ≡ veces x s.colas.lista_ready + (if x == q then 1 else 0))
              × (en_colas x s'.colas ≡ en_colas x s.colas))
        × (s'.colas.lista_execute ≡ s.colas.lista_execute)
        × (s'.colas.cola_exit ≡ s.colas.cola_exit)
  unfolding ready agregar_ready cambiar_cod_accion_query
  ready-en_colas s s' h =
      let a = bind-some (obtener_siguiente s) _ h in
      let q = a.0.0 in
      let s1 = a.0.1 in
      let t =
        siguiente_con_lem q s s1 s.colas.cola_desalojo s.colas.cola_new refl refl
          (sym (siguiente-con s) ∙ a.1) in
      let c =
        verificar_desalojo-colas q
          (cambiar_cod_accion_query q espera_query (agregar_ready lib q s1)) s' a.2 in
      let sale = subst (Sale q s.colas) (sym c) (
        Sale-ready q s.colas s1.colas (agregar_query_master_lista lib s1 s1.colas.lista_ready q)
          t.0) in
      let ejecutan = ap (λ k. k.lista_execute) c ∙ t.1.1 in
      let salidas = ap (λ k. k.cola_exit) c ∙ t.1.2 in
      let esta : (x : ℕ)
          → veces x s'.colas.lista_ready ≡ veces x s.colas.lista_ready + (if x == q then 1 else 0) =
        λ x.
          ap (λ k. veces x k.lista_ready) c
          ∙ agregar_lista-veces lib x q s1 s1.colas.lista_ready
          ∙ ap (λ l. veces x l + (if x == q then 1 else 0)) t.1.0 in
      (
        q,
        sale,
        (λ x. (esta x, cuenta_con x q s.colas s'.colas sale ejecutan salidas (esta x))),
        ejecutan,
        salidas,
      )
