-- ===== src/Worker/Lineas.antt =====
-- worker/src/ejecucion.c: the while of queryInterpreter, which looks for its line from the start of
-- the file each time, against one pass over the lines.
use trabajo_practico_de_sist.Comun.{
  ℕ, zero, suc, ◌+◌, ◌<◌, ◌≤◌, ◌≡◌, refl, ap, ◌∙◌, inl, inr, List, [], ◌∷◌, Option, some, none,
  arith, ◌>>=◌, Option-cases, length, get_elem?, drop, map,
}
use trabajo_practico_de_sist.Worker.Estado.{Entorno}
use trabajo_practico_de_sist.Worker.Instrucciones.{trozos, hasta_salto, leer_linea_por_indice}
use trabajo_practico_de_sist.Worker.Ejecucion.{Ejecutor}
use trabajo_practico_de_sist.Worker.Interprete.{
  Llegadas, sigue_linea, sale, ejecutar_linea, ejecutar_desde,
}

-- The lines of a file as fgets gives them.
abbrev pub lineas : List ℕ → List (List ℕ)
lineas archivo = map hasta_salto (trozos 255 [] archivo)

leer_linea-lineas :
    (archivo : List ℕ) (i : ℕ) → leer_linea_por_indice archivo i ≡ get_elem? (lineas archivo) i
unfolding leer_linea_por_indice
leer_linea-lineas archivo i = map_get (trozos 255 [] archivo) i
  where
    map_get :
        (xs : List (List ℕ)) (j : ℕ)
        → get_elem? xs j >>= (λ x. some (hasta_salto x)) ≡ get_elem? (map hasta_salto xs) j
    map_get [] j = refl
    map_get (x ∷ xs) zero = refl
    map_get (x ∷ xs) (suc j) = map_get xs j

drop-none : (xs : List (List ℕ)) (i : ℕ) → get_elem? xs i ≡ none → drop i xs ≡ []
drop-none [] zero e = refl
drop-none [] (suc i) e = refl
drop-none (x ∷ xs) zero e = absurd (cc e)
drop-none (x ∷ xs) (suc i) e = drop-none xs i e

drop-some :
    (xs : List (List ℕ)) (i : ℕ) {x : List ℕ}
    → get_elem? xs i ≡ some x
    → drop i xs ≡ x ∷ drop (suc i) xs
drop-some [] i e = absurd (cc e)
drop-some (y ∷ xs) zero {x = x} e = ap (λ o. elim o [ none ↦ y | some z ↦ z ] ∷ xs) e
drop-some (y ∷ xs) (suc i) e = drop-some xs i e

get_elem?-fuera : (xs : List (List ℕ)) (i : ℕ) → length xs ≤ i → get_elem? xs i ≡ none
get_elem?-fuera [] i h = refl
get_elem?-fuera (x ∷ xs) zero h = absurd (omega (arith, h))
get_elem?-fuera (x ∷ xs) (suc i) h = get_elem?-fuera xs i (omega (arith, h))

succ : (n : ℕ) → n + 1 ≡ suc n
succ n = omega arith

module _ {S : Type 0} (ent : Entorno S) where
  -- Each line once, in order, from the program counter `pc` on, until one does not go on.
  abbrev pub ejecutar_lineas :
      List (List ℕ) → (id_query pc : ℕ) (llegadas : ℕ → Llegadas) → Ejecutor S → Option (Ejecutor S)
  ejecutar_lineas [] id_query pc llegadas e = some e
  ejecutar_lineas (linea ∷ resto) id_query pc llegadas e = do
    (e1, marcha) ← ejecutar_linea ent linea id_query pc (llegadas pc) e
    elim marcha [
      | sigue_linea ↦ ejecutar_lineas resto id_query (pc + 1) llegadas e1
      | sale ↦ some e1
    ]

  -- The while of queryInterpreter ends after at most as many rounds as there are lines from `pc` on
  -- and one more, and it does what one pass over these lines does: it fails where the pass fails.
  pub ejecutar_desde-lineas :
      (rondas : ℕ) (archivo : List ℕ) (id_query pc : ℕ) (llegadas : ℕ → Llegadas) (e : Ejecutor S)
      → length (drop pc (lineas archivo)) < rondas
      → ejecutar_desde ent rondas archivo id_query pc llegadas e ≡ (do
        e' ← ejecutar_lineas (drop pc (lineas archivo)) id_query pc llegadas e
        some (e', sale))
  unfolding ejecutar_desde
  ejecutar_desde-lineas zero archivo id_query pc llegadas e h = absurd (omega (arith, h))
  ejecutar_desde-lineas (suc rondas) archivo id_query pc llegadas e h =
      elim (Option-cases (get_elem? (lineas archivo) pc)) [
        | inl fin ↦
            let leida = leer_linea-lineas archivo pc ∙ fin in
            rw (leida, ejecutar_desde, drop-none (lineas archivo) pc fin) refl
        | inr (linea, hay) ↦
            let leida = leer_linea-lineas archivo pc ∙ hay in
            let quedan = drop-some (lineas archivo) pc hay in
            rw (leida, ejecutar_desde, quedan)
              (elim (Option-cases (ejecutar_linea ent linea id_query pc (llegadas pc) e)) [
                | inl no' ↦ rw no' refl
                | inr ((e1, sigue_linea), si) ↦ rw si (
                    ejecutar_desde-lineas rondas archivo id_query (pc + 1) llegadas e1
                      (omega (arith, h, ap length quedan, ap length (otro_pc pc (lineas archivo))))
                    ∙ ap
                        (λ l.
                          ejecutar_lineas l id_query (pc + 1) llegadas e1
                          >>= (λ e'. some (e', sale)))
                        (otro_pc pc (lineas archivo)))
                | inr ((e1, sale), si) ↦ rw si refl
              ])
      ]
    where
      otro_pc : (n : ℕ) (xs : List (List ℕ)) → drop (n + 1) xs ≡ drop (suc n) xs
      otro_pc n xs = ap (λ k. drop k xs) (succ n)
