-- ===== src/Worker/Rangos.antt =====
-- The copies of memcpy that worker/src/memoria.c makes: a range of a buffer written and read.
use trabajo_practico_de_sist.Comun.{
  ℕ, zero, suc, ◌+◌, ◌≤◌, ◌≡◌, refl, ap, sym, ◌∙◌, ◌⊎◌, inl, inr, List, [], ◌∷◌, ◌++◌, some, arith,
  length, take, drop, le→leb, length-append, length-take, take-length_append,
}
use trabajo_practico_de_sist.Worker.Marcos.{leer_rango, poner_rango}

-- The buffer with `bytes` at `pos`.
abbrev pub sobre : List ℕ → ℕ → List ℕ → List ℕ
sobre buffer pos bytes = take pos buffer ++ (bytes ++ drop (pos + length bytes) buffer)

length-drop : (n : ℕ) (xs : List ℕ) → n ≤ length xs → n + length (drop n xs) ≡ length xs
length-drop zero xs h = omega arith
length-drop (suc n) [] h = elim h [ ]
length-drop (suc n) (x ∷ xs) h = omega (arith, length-drop n xs (omega arith))

pub length-sobre :
    (b : List ℕ) (pos : ℕ) (bytes : List ℕ)
    → pos + length bytes ≤ length b
    → length (sobre b pos bytes) ≡ length b
length-sobre b pos bytes h = omega (
  arith,
  length-append (take pos b) (bytes ++ drop (pos + length bytes) b),
  length-append bytes (drop (pos + length bytes) b),
  length-take pos b (omega arith),
  length-drop (pos + length bytes) b h,
)

drop-take_append : (pos : ℕ) (b xs : List ℕ) → pos ≤ length b → drop pos (take pos b ++ xs) ≡ xs
drop-take_append zero b xs h = refl
drop-take_append (suc pos) [] xs h = elim h [ ]
drop-take_append (suc pos) (x ∷ b) xs h = drop-take_append pos b xs (omega arith)

take-antes :
    (n pos : ℕ) (b xs : List ℕ) → n ≤ pos → pos ≤ length b → take n (take pos b ++ xs) ≡ take n b
take-antes zero pos b xs h k = refl
take-antes (suc n) zero b xs h k = elim h [ ]
take-antes (suc n) (suc pos) [] xs h k = elim k [ ]
take-antes (suc n) (suc pos) (x ∷ b) xs h k =
    ap (◌∷◌ x) (take-antes n pos b xs (omega arith) (omega arith))

antes :
    (p n pos : ℕ) (b xs : List ℕ)
    → p + n ≤ pos
    → pos ≤ length b
    → take n (drop p (take pos b ++ xs)) ≡ take n (drop p b)
antes zero n pos b xs h k = take-antes n pos b xs (omega arith) k
antes (suc p) n zero b xs h k = absurd (omega (arith, h))
antes (suc p) n (suc pos) [] xs h k = elim k [ ]
antes (suc p) n (suc pos) (x ∷ b) xs h k = antes p n pos b xs (omega arith) (omega arith)

despues_de :
    (p : ℕ) (bytes b : List ℕ)
    → length bytes ≤ p
    → length bytes ≤ length b
    → drop p (bytes ++ drop (length bytes) b) ≡ drop p b
despues_de p [] b h k = refl
despues_de zero (y ∷ bytes) b h k = elim h [ ]
despues_de (suc p) (y ∷ bytes) [] h k = elim k [ ]
despues_de (suc p) (y ∷ bytes) (x ∷ b) h k = despues_de p bytes b (omega arith) (omega arith)

despues :
    (pos p : ℕ) (bytes b : List ℕ)
    → pos + length bytes ≤ p
    → pos + length bytes ≤ length b
    → drop p (sobre b pos bytes) ≡ drop p b
despues zero p bytes b h k =
    ap (λ i. drop p (bytes ++ drop i b)) (omega arith)
    ∙ despues_de p bytes b (omega arith) (omega arith)
despues (suc pos) zero bytes b h k = absurd (omega (arith, h))
despues (suc pos) (suc p) bytes [] h k = absurd (omega (arith, k))
despues (suc pos) (suc p) bytes (x ∷ b) h k =
    let e : suc pos + length bytes ≡ suc (pos + length bytes) = omega arith in
    ap (λ i. drop p (take pos b ++ (bytes ++ drop i (x ∷ b)))) e
    ∙ despues pos p bytes b (omega arith) (omega arith)

pub poner_rango_lem :
    (b : List ℕ) (pos : ℕ) (bytes : List ℕ)
    → pos + length bytes ≤ length b
    → poner_rango b pos bytes ≡ some (sobre b pos bytes)
unfolding poner_rango
poner_rango_lem b pos bytes h = rw (le→leb (pos + length bytes) (length b) h) refl

pub leer_rango_lem :
    (b : List ℕ) (pos n : ℕ) → pos + n ≤ length b → leer_rango b pos n ≡ some (take n (drop pos b))
unfolding leer_rango
leer_rango_lem b pos n h = rw (le→leb (pos + n) (length b) h) refl

-- What was written is what is read there.
pub leer_rango-sobre :
    (b : List ℕ) (pos : ℕ) (bytes : List ℕ)
    → pos + length bytes ≤ length b
    → leer_rango (sobre b pos bytes) pos (length bytes) ≡ some bytes
leer_rango-sobre b pos bytes h =
    leer_rango_lem (sobre b pos bytes) pos (length bytes)
      (omega (arith, length-sobre b pos bytes h))
    ∙ ap (λ x. some (take (length bytes) x))
        (drop-take_append pos b (bytes ++ drop (pos + length bytes) b) (omega arith))
    ∙ ap some (take-length_append bytes (drop (pos + length bytes) b))

-- A range that does not meet the one written reads as before.
pub leer_rango-ajeno :
    (b : List ℕ) (pos : ℕ) (bytes : List ℕ) (p n : ℕ)
    → pos + length bytes ≤ length b
    → p + n ≤ length b
    → (p + n ≤ pos) ⊎ (pos + length bytes ≤ p)
    → leer_rango (sobre b pos bytes) p n ≡ leer_rango b p n
leer_rango-ajeno b pos bytes p n h k d =
    leer_rango_lem (sobre b pos bytes) p n (omega (arith, length-sobre b pos bytes h))
    ∙ ap some (elim d [
      | inl a ↦ antes p n pos b (bytes ++ drop (pos + length bytes) b) a (omega arith)
      | inr a ↦ ap (take n) (despues pos p bytes b a h)
    ])
    ∙ sym (leer_rango_lem b p n k)
