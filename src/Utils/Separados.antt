-- ===== src/Utils/Separados.antt =====
-- Texts joined by a separator, and what the commons document of string_split and string_itoa on
-- them (utils/src/utils/utils.c and worker/src/ejecucion.c call these).
use trabajo_practico_de_sist.Comun.{ℕ, ◌^◌, ◌<◌, ◌≤◌, ◌≡◌, ◌≢◌, List, [], ◌∷◌, ◌++◌, All, arith}
use trabajo_practico_de_sist.Utils.Enteros.{atoi}

-- The texts with the separator between them.
abbrev pub unir : ℕ → List (List ℕ) → List ℕ
unir sep [] = []
unir sep (w ∷ []) = w
unir sep (w ∷ v ∷ ws) = w ++ sep ∷ unir sep (v ∷ ws)

-- A word: it is not empty and the separator is not in it.
abbrev pub Palabra : ℕ → List ℕ → Type 0
Palabra sep w = (w ≢ []) × All (λ b. b ≢ sep) w

abbrev pub EsDigito : ℕ → Type 0
EsDigito b = (48 ≤ b) × (b ≤ 57)

-- string_split gives back the words that were joined.
abbrev pub Separa : (List ℕ → ℕ → List (List ℕ)) → Type 0
Separa partir =
    (sep : ℕ) (w : List ℕ) (ws : List (List ℕ))
    → All (Palabra sep) (w ∷ ws)
    → partir (unir sep (w ∷ ws)) sep ≡ w ∷ ws

-- string_itoa of a number that is not negative is its decimal text.
pub record Decimal (itoa : ℕ → List ℕ) : Type 0 where
  pub digitos : (n : ℕ) → n < 2 ^ 31 → All EsDigito (itoa n)
  pub algo : (n : ℕ) → n < 2 ^ 31 → itoa n ≢ []
  pub valor : (n : ℕ) → n < 2 ^ 31 → atoi (itoa n) ≡ n

pub All-map {ℓ κ} :
    {A : Type ℓ} {P Q : A → Type κ} (l : List A) → ((x : A) → P x → Q x) → All P l → All Q l
All-map [] f h = tt
All-map (x ∷ l) f h = (f x h.0, All-map l f h.1)

pub All-append {ℓ κ} :
    {A : Type ℓ} (P : A → Type κ) (l m : List A) → All P l → All P m → All P (l ++ m)
All-append P [] m h k = k
All-append P (x ∷ l) m h k = (h.0, All-append P l m h.1 k)

-- A decimal text is a word for a separator that is no digit.
pub digitos-Palabra :
    (sep n : ℕ) (itoa : ℕ → List ℕ) → Decimal itoa → sep < 48 → n < 2 ^ 31 → Palabra sep (itoa n)
digitos-Palabra sep n itoa d h k =
    (d.algo n k, All-map (itoa n) (λ b e i. omega (arith, e.0, i, h)) (d.digitos n k))
