-- ===== src/Storage/Enlaces/Laws.antt =====
-- A logical_blocks directory against the list of blocks of its metadata.
use trabajo_practico_de_sist.Comun.{
  ℕ, zero, suc, ◌+◌, ◌<◌, ◌≡◌, refl, List, [], ◌∷◌, ◌++◌, Option, none, some, length, get_elem?,
  set, take, ◌==◌, if◌then◌else◌, arith,
}
use trabajo_practico_de_sist.Storage.Enlaces.{insertar, borrar, cuenta}

-- The directory of a tag whose blocks, from number `k` on, are `bs`.
abbrev pub enum : ℕ → List ℕ → List (ℕ × ℕ)
enum k [] = []
enum k (b ∷ bs) = (k, b) ∷ enum (suc k) bs

-- The block that entry `i` is a link to.
abbrev pub destino : ℕ → List (ℕ × ℕ) → Option ℕ
destino i [] = none
destino i ((j, c) ∷ r) = if i == j then some c else destino i r

abbrev pub uno_si : ℕ → ℕ → ℕ
uno_si x c = if x == c then 1 else 0

pub cuenta-borrar :
    (x i : ℕ) (l : List (ℕ × ℕ)) {c : ℕ}
    → destino i l ≡ some c
    → cuenta x (borrar i l) + uno_si x c ≡ cuenta x l
unfolding cuenta borrar
cuenta-borrar x i [] h = cc
cuenta-borrar x i ((j, b) ∷ r) {c} h = ground (arith, cuenta-borrar x i r {c = c})

pub cuenta-insertar :
    (x i c : ℕ) (l : List (ℕ × ℕ))
    → destino i l ≡ none
    → cuenta x (insertar i c l) ≡ cuenta x l + uno_si x c
unfolding cuenta insertar
cuenta-insertar x i c [] h = ground arith
cuenta-insertar x i c ((j, d) ∷ r) h = ground (arith, cuenta-insertar x i c r)

pub cuenta-destino : (i : ℕ) (l : List (ℕ × ℕ)) {c : ℕ} → destino i l ≡ some c → 0 < cuenta c l
unfolding cuenta
cuenta-destino i [] h = cc
cuenta-destino i ((j, d) ∷ r) {c} h = ground (arith, cuenta-destino i r {c = c})

-- Entries below `k` are not there.
pub destino-enum_below : (i k : ℕ) (bs : List ℕ) → i < k → destino i (enum k bs) ≡ none
destino-enum_below i k [] h = refl
destino-enum_below i k (b ∷ bs) h = ground (arith, destino-enum_below i (suc k) bs)

pub destino-enum : (k i : ℕ) (bs : List ℕ) → destino (k + i) (enum k bs) ≡ get_elem? bs i
destino-enum k i [] = refl
destino-enum k zero (b ∷ bs) = ground arith
destino-enum k (suc i) (b ∷ bs) = ground (arith, mas, destino-enum (suc k) i bs)
  where
    mas : k + suc i ≡ suc k + i
    mas = omega arith

pub destino-enum_end : (k : ℕ) (bs : List ℕ) → destino (k + length bs) (enum k bs) ≡ none
destino-enum_end k [] = refl
destino-enum_end k (b ∷ bs) = ground (arith, mas, destino-enum_end (suc k) bs)
  where
    mas : k + suc (length bs) ≡ suc k + length bs
    mas = omega arith

pub insertar-enum_end :
    (k : ℕ) (bs : List ℕ) (c : ℕ) → insertar (k + length bs) c (enum k bs) ≡ enum k (bs ++ c ∷ [])
unfolding insertar
insertar-enum_end k [] c = ground arith
insertar-enum_end k (b ∷ bs) c = ground (arith, mas, insertar-enum_end (suc k) bs c)
  where
    mas : k + suc (length bs) ≡ suc k + length bs
    mas = omega arith

pub destino-borrar-enum :
    (k i : ℕ) (bs : List ℕ) → destino (k + i) (borrar (k + i) (enum k bs)) ≡ none
unfolding borrar
destino-borrar-enum k i [] = refl
destino-borrar-enum k zero (b ∷ bs) = ground (arith, destino-enum_below (k + 0) (suc k) bs)
destino-borrar-enum k (suc i) (b ∷ bs) = ground (arith, mas, destino-borrar-enum (suc k) i bs)
  where
    mas : k + suc i ≡ suc k + i
    mas = omega arith

insertar-enum_below :
    (i c k : ℕ) (bs : List ℕ) → i < k → insertar i c (enum k bs) ≡ (i, c) ∷ enum k bs
unfolding insertar
insertar-enum_below i c k [] h = refl
insertar-enum_below i c k (b ∷ bs) h = ground arith

pub insertar-borrar-enum :
    (k i c : ℕ) (bs : List ℕ)
    → i < length bs
    → insertar (k + i) c (borrar (k + i) (enum k bs)) ≡ enum k (set bs i c)
unfolding insertar borrar
insertar-borrar-enum k i c [] h = elim h [ ]
insertar-borrar-enum k zero c (b ∷ bs) h = ground (arith, insertar-enum_below (k + 0) c (suc k) bs)
insertar-borrar-enum k (suc i) c (b ∷ bs) h =
    ground (arith, mas, insertar-borrar-enum (suc k) i c bs)
  where
    mas : k + suc i ≡ suc k + i
    mas = omega arith

pub borrar-enum_last :
    (k m : ℕ) (bs : List ℕ) → length bs ≡ suc m → borrar (k + m) (enum k bs) ≡ enum k (take m bs)
unfolding borrar
borrar-enum_last k m [] h = absurd (omega arith)
borrar-enum_last k zero (b ∷ []) h = ground arith
borrar-enum_last k zero (b ∷ c ∷ bs) h = absurd (omega arith)
borrar-enum_last k (suc m) (b ∷ bs) h = ground (arith, mas, borrar-enum_last (suc k) m bs)
  where
    mas : k + suc m ≡ suc k + m
    mas = omega arith

-- The same from number 0 on, as in a directory.
cero_mas : (i : ℕ) → 0 + i ≡ i
cero_mas i = omega arith

pub destino-get_elem? : (i : ℕ) (bs : List ℕ) → destino i (enum 0 bs) ≡ get_elem? bs i
destino-get_elem? i bs = rw (cero_mas i) at (destino-enum 0 i bs)

pub destino-fin : (bs : List ℕ) → destino (length bs) (enum 0 bs) ≡ none
destino-fin bs = rw (cero_mas (length bs)) at (destino-enum_end 0 bs)

pub insertar-fin :
    (bs : List ℕ) (c : ℕ) → insertar (length bs) c (enum 0 bs) ≡ enum 0 (bs ++ c ∷ [])
insertar-fin bs c = rw (cero_mas (length bs)) at (insertar-enum_end 0 bs c)

pub destino-borrar : (i : ℕ) (bs : List ℕ) → destino i (borrar i (enum 0 bs)) ≡ none
destino-borrar i bs = rw (cero_mas i) at (destino-borrar-enum 0 i bs)

pub insertar-borrar :
    (i c : ℕ) (bs : List ℕ)
    → i < length bs
    → insertar i c (borrar i (enum 0 bs)) ≡ enum 0 (set bs i c)
insertar-borrar i c bs h = rw (cero_mas i) at (insertar-borrar-enum 0 i c bs h)

pub borrar-ultimo :
    (m : ℕ) (bs : List ℕ) → length bs ≡ suc m → borrar m (enum 0 bs) ≡ enum 0 (take m bs)
borrar-ultimo m bs h = rw (cero_mas m) at (borrar-enum_last 0 m bs h)
