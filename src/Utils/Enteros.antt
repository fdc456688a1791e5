-- ===== src/Utils/Enteros.antt =====
-- utils/src/utils/utils.c: stringToBool and the texts of lists of ints; atoi of the C library, on a
-- text whose value fits in a long. An int is its bit pattern, below 2 ^ 32.
use trabajo_practico_de_sist.Comun.{
  ℕ, ◌+◌, ◌-◌, ◌*◌, ◌%◌, ◌^◌, List, [], ◌∷◌, ◌++◌, Bool, false, ◌&&◌, ◌||◌, leb, ◌==◌,
  if◌then◌else◌, map, take, drop, length, codes, eq_bytes, Option, none, some,
}

-- string_split and string_itoa of the commons.
pub record Textos : Type 0 where
  pub partir : List ℕ → ℕ → List (List ℕ)
  pub itoa : ℕ → List ℕ

-- isspace.
unfoldable pub es_blanco : ℕ → Bool
es_blanco c = c == 32 || leb 9 c && leb c 13

unfoldable pub digitos : ℕ → List ℕ → ℕ
digitos n [] = n
digitos n (c ∷ cs) = if leb 48 c && leb c 57 then digitos (n * 10 + (c - 48)) cs else n

unfoldable pub con_signo : List ℕ → ℕ
unfolding digitos
con_signo [] = 0
con_signo (c ∷ cs) =
    if c == 45
    then (2 ^ 32 - digitos 0 cs % 2 ^ 32) % 2 ^ 32
    else if c == 43
    then digitos 0 cs % 2 ^ 32
    else digitos 0 (c ∷ cs) % 2 ^ 32

unfoldable pub atoi : List ℕ → ℕ
unfolding es_blanco con_signo
atoi [] = 0
atoi (c ∷ cs) = if es_blanco c then atoi cs else con_signo (c ∷ cs)

-- `none` is NULL.
unfoldable pub string_to_bool : Option (List ℕ) → Bool
string_to_bool none = false
string_to_bool (some texto) = eq_bytes texto (codes "TRUE")

-- The text without its first character and its last one, which are the brackets.
unfoldable pub sin_corchetes : List ℕ → List ℕ
sin_corchetes texto = take (length (drop 1 texto) - 1) (drop 1 texto)

module _ (textos : Textos) where
  -- 44 is the code of ','.
  unfoldable pub parsear_lista_enteros : List ℕ → List ℕ
  unfolding sin_corchetes atoi
  parsear_lista_enteros texto = map atoi (textos.partir (sin_corchetes texto) 44)

  -- The loop of lista_enteros_a_string from its second element on.
  unfoldable pub resto_a_string : List ℕ → List ℕ
  resto_a_string [] = []
  resto_a_string (n ∷ ns) = 44 ∷ textos.itoa n ++ resto_a_string ns

  unfoldable pub enteros_a_string : List ℕ → List ℕ
  unfolding resto_a_string
  enteros_a_string [] = []
  enteros_a_string (n ∷ ns) = textos.itoa n ++ resto_a_string ns

  -- 91 and 93 are the codes of the brackets.
  unfoldable pub lista_enteros_a_string : List ℕ → List ℕ
  unfolding enteros_a_string
  lista_enteros_a_string ns = 91 ∷ enteros_a_string ns ++ 93 ∷ []
