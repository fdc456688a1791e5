-- ===== src/Worker/Desalojo.antt =====
-- worker/src/ejecucion.c: the body of if (huboInterrupcion()), which writes the memory back before it
-- confirms the preemption.
use trabajo_practico_de_sist.Comun.{
  bind-some, some_inj, ℕ, ◌+◌, ◌≡◌, refl, ap, sym, subst, ◌∙◌, ◌⊎◌, inl, inr, List, [], ◌∷◌, ◌++◌,
  some, none, true, Bool-cases, All,
}
use trabajo_practico_de_sist.Utils.Estructuras.{
  Instruccion, RespuestaStorage, RespuestaQuery, desalojo_query, fin_query, crear_respuesta_query,
}
use trabajo_practico_de_sist.Utils.Separados.{All-map}
use trabajo_practico_de_sist.Worker.Estado.{
  TablaDePaginas, Memoria, Nodo, Entorno, encontrar_tabla_con_file_tag, buscar_tabla,
}
use trabajo_practico_de_sist.Worker.Bloques.{es_correcto, respuesta_por_defecto}
use trabajo_practico_de_sist.Worker.Persistencia.{
  persistir_memoria, persistir_tablas, persistir_memoria_completa,
}
use trabajo_practico_de_sist.Worker.Ejecucion.{
  Ejecutor, enviar_al_master, liberar_query_actual, cerrar_query, procesar_error,
  confirmar_desalojo,
}
use trabajo_practico_de_sist.Worker.Interprete.{desalojar}
use trabajo_practico_de_sist.Worker.Volcado.{
  Limpia, SoloLimpia, SoloLimpia-refl, SoloLimpia-trans, persistir_paginas-SoloLimpia,
}

-- A table is the one that its file:tag finds.
abbrev pub Hallable : Memoria → TablaDePaginas → Type 0
Hallable m t = encontrar_tabla_con_file_tag t.file_tag m ≡ some t

-- No page of the table is modified.
abbrev pub Persistida : Memoria → TablaDePaginas → Type 0
Persistida m t = All (Limpia m) t.paginas

Hallable-tablas :
    (m m' : Memoria) (t : TablaDePaginas) → m'.tablas ≡ m.tablas → Hallable m t → Hallable m' t
unfolding encontrar_tabla_con_file_tag
Hallable-tablas m m' t e h = ap (buscar_tabla t.file_tag) e ∙ h

module _ {S : Type 0} (ent : Entorno S) (id : ℕ) where
  una_tabla :
      (s s1 : Nodo S) (r : RespuestaStorage) (t : TablaDePaginas)
      → Hallable s.memoria t
      → persistir_memoria ent id t.file_tag s ≡ some (s1, r)
      → es_correcto r.cod_respuesta ≡ true
      → SoloLimpia s.memoria s1.memoria × Persistida s1.memoria t
  unfolding persistir_memoria
  una_tabla s s1 r t h e ok =
      let x =
        persistir_paginas-SoloLimpia ent id t.file_tag 0 t.paginas respuesta_por_defecto r s s1
          (rw (h, persistir_memoria) at e) in
      (x.0, x.1 ok)

  persistir_tablas-Persistida :
      (l : List TablaDePaginas) (r r' : RespuestaStorage) (s s' : Nodo S)
      → All (Hallable s.memoria) l
      → persistir_tablas ent id l r s ≡ some (s', r')
      → es_correcto r'.cod_respuesta ≡ true
      → SoloLimpia s.memoria s'.memoria × All (Persistida s'.memoria) l
  unfolding persistir_tablas
  persistir_tablas-Persistida [] r r' s s' h e ok =
      (subst (λ x. SoloLimpia s.memoria x.0.memoria) (some_inj e) (SoloLimpia-refl s.memoria), tt)
  persistir_tablas-Persistida (t ∷ resto) r r' s s' h e ok =
      let a = bind-some (persistir_memoria ent id t.file_tag s) _ e in
      elim (Bool-cases (es_correcto a.0.1.cod_respuesta)) [
        | inl bien ↦
            let u = una_tabla s a.0.0 a.0.1 t h.0 a.1 bien in
            let v =
              persistir_tablas-Persistida resto a.0.1 r' a.0.0 s'
                (All-map resto (λ x i. Hallable-tablas s.memoria a.0.0.memoria x u.0.tablas i) h.1)
                (rw bien at a.2) ok in
            (
              SoloLimpia-trans s.memoria a.0.0.memoria s'.memoria u.0 v.0,
              (All-map t.paginas (λ d i. v.0.limpias d i) u.1, v.1),
            )
        | inr mal ↦
            absurd
              (cc (ok, mal, ap (λ x. es_correcto x.1.cod_respuesta) (some_inj (rw mal at a.2))))
      ]

  cerrar-mensaje :
      (r : RespuestaQuery) (e e' : Ejecutor S)
      → cerrar_query r e ≡ some e'
      → (e'.al_master ≡ e.al_master ++ r ∷ []) × (e'.nodo ≡ e.nodo)
  unfolding cerrar_query liberar_query_actual enviar_al_master
  cerrar-mensaje r e e' h =
      let b = bind-some (liberar_query_actual e) (λ e1. some (enviar_al_master r e1)) h in
      let d = bind-some e.query_actual (λ q. some (record e { query_actual = none })) b.1 in
      let fin : enviar_al_master r (record e { query_actual = none }) ≡ e' =
        ap (enviar_al_master r) (some_inj d.2) ∙ some_inj b.2 in
      (sym (ap (λ x. x.al_master) fin), sym (ap (λ x. x.nodo) fin))

  -- A preemption, where it ends and each table is found by its file:tag, sends one answer: DESALOJO_QUERY
  -- with the number of the next line, and then no page of any table is modified, or FIN_QUERY.
  pub desalojar-Persistida :
      (pc : ℕ) (ins : Instruccion) (e e' : Ejecutor S)
      → All (Hallable e.nodo.memoria) e.nodo.memoria.tablas
      → desalojar ent id pc ins e ≡ some e'
      → (r : RespuestaQuery) × (e'.al_master ≡ e.al_master ++ r ∷ [])
        × (((r.cod_respuesta ≡ desalojo_query)
              × (r.pc ≡ pc + 1)
              × All (Persistida e'.nodo.memoria) e.nodo.memoria.tablas)
            ⊎ (r.cod_respuesta ≡ fin_query))
  unfolding desalojar persistir_memoria_completa confirmar_desalojo procesar_error
      crear_respuesta_query
  desalojar-Persistida pc ins e e' h d =
      let a = bind-some (persistir_memoria_completa ent id e.nodo) _ d in
      let e1 = record e { nodo = a.0.0 } in
      elim (Bool-cases (es_correcto a.0.1.cod_respuesta)) [
        | inl bien ↦
            let c = cerrar-mensaje _ e1 e' (rw bien at a.2) in
            let p =
              persistir_tablas-Persistida e.nodo.memoria.tablas respuesta_por_defecto a.0.1 e.nodo
                a.0.0 h a.1 bien in
            (
              _,
              c.0,
              inl (
                refl,
                refl,
                subst (λ n. All (Persistida n.memoria) e.nodo.memoria.tablas) (sym c.1) p.1,
              ),
            )
        | inr mal ↦ let c = cerrar-mensaje _ e1 e' (rw mal at a.2) in (_, c.0, inr refl)
      ]
