-- ===== src/Utils/IdaYVuelta.antt =====
-- utils/src/utils/utils.c: parsear_lista_enteros reads what lista_enteros_a_string writes.
use trabajo_practico_de_sist.Comun.{
  ℕ, ◌-◌, ◌^◌, ◌<◌, ◌≡◌, refl, ap, ◌∙◌, List, [], ◌∷◌, ◌++◌, arith, All, map, take, length,
  length-append, take-length_append, append-nil,
}
use trabajo_practico_de_sist.Utils.Enteros.{
  Textos, atoi, sin_corchetes, parsear_lista_enteros, resto_a_string, enteros_a_string,
  lista_enteros_a_string,
}
use trabajo_practico_de_sist.Utils.Separados.{unir, Palabra, Separa, Decimal, digitos-Palabra}

sin_corchetes_lem : (xs : List ℕ) → sin_corchetes (91 ∷ xs ++ 93 ∷ []) ≡ xs
unfolding sin_corchetes
sin_corchetes_lem xs =
    let e : length (xs ++ 93 ∷ []) - 1 ≡ length xs = omega (arith, length-append xs (93 ∷ [])) in
    ap (λ k. take k (xs ++ 93 ∷ [])) e ∙ take-length_append xs (93 ∷ [])

module _ (textos : Textos) where
  enteros-unir :
      (n : ℕ) (ns : List ℕ) → enteros_a_string textos (n ∷ ns) ≡ unir 44 (map textos.itoa (n ∷ ns))
  unfolding enteros_a_string resto_a_string
  enteros-unir n [] = append-nil (textos.itoa n)
  enteros-unir n (m ∷ ns) = ap (λ r. textos.itoa n ++ 44 ∷ r) (enteros-unir m ns)

  enteros-Palabra :
      (ns : List ℕ)
      → Decimal textos.itoa
      → All (λ n. n < 2 ^ 31) ns
      → All (Palabra 44) (map textos.itoa ns)
  enteros-Palabra [] d h = tt
  enteros-Palabra (n ∷ ns) d h =
      (digitos-Palabra 44 n textos.itoa d (omega arith) h.0, enteros-Palabra ns d h.1)

  atoi-itoa :
      (ns : List ℕ)
      → Decimal textos.itoa
      → All (λ n. n < 2 ^ 31) ns
      → map atoi (map textos.itoa ns) ≡ ns
  atoi-itoa [] d h = refl
  atoi-itoa (n ∷ ns) d h =
      ap (λ k. k ∷ map atoi (map textos.itoa ns)) (d.valor n h.0) ∙ ap (◌∷◌ n) (atoi-itoa ns d h.1)

  -- A list with at least one int, none negative, is read back from its text between brackets, when
  -- string_split gives back the words that a separator joins and string_itoa writes decimals.
  pub parsear-lista_enteros_a_string :
      (n : ℕ) (ns : List ℕ)
      → Separa textos.partir
      → Decimal textos.itoa
      → All (λ k. k < 2 ^ 31) (n ∷ ns)
      → parsear_lista_enteros textos (lista_enteros_a_string textos (n ∷ ns)) ≡ n ∷ ns
  unfolding parsear_lista_enteros lista_enteros_a_string
  parsear-lista_enteros_a_string n ns separa d h =
      ap (λ t. map atoi (textos.partir t 44))
        (sin_corchetes_lem (enteros_a_string textos (n ∷ ns)) ∙ enteros-unir n ns)
      ∙ ap (map atoi)
          (separa 44 (textos.itoa n) (map textos.itoa ns) (enteros-Palabra (n ∷ ns) d h))
      ∙ atoi-itoa (n ∷ ns) d h
