-- ===== src/Storage/Enlaces.antt =====
-- The hard links in a logical_blocks directory. The directory has no order of its own; the list is
-- kept by the number of the entry.
pub mod Laws
use trabajo_practico_de_sist.Comun.{ℕ, ◌+◌, List, [], ◌∷◌, ltb, ◌==◌, if◌then◌else◌}
use trabajo_practico_de_sist.Storage.Estado.{DirTag}

-- link(): a name that is there already is left as it is.
unfoldable pub insertar : ℕ → ℕ → List (ℕ × ℕ) → List (ℕ × ℕ)
insertar i b [] = (i, b) ∷ []
insertar i b ((j, c) ∷ r) =
    if ltb i j
    then (i, b) ∷ ((j, c) ∷ r)
    else if i == j
    then (j, c) ∷ r
    else (j, c) ∷ insertar i b r

-- unlink(): a name that is not there changes nothing.
unfoldable pub borrar : ℕ → List (ℕ × ℕ) → List (ℕ × ℕ)
borrar i [] = []
borrar i ((j, c) ∷ r) = if i == j then r else (j, c) ∷ borrar i r

-- How many of the links are to block `b`.
unfoldable pub cuenta : ℕ → List (ℕ × ℕ) → ℕ
cuenta b [] = 0
cuenta b ((j, c) ∷ r) = (if b == c then 1 else 0) + cuenta b r

-- The links to `b` in all the directories.
unfoldable pub refs : ℕ → List DirTag → ℕ
unfolding cuenta
refs b [] = 0
refs b (d ∷ ds) = cuenta b d.logicos + refs b ds

-- st_nlink of the physical block: its own name, and its logical ones.
unfoldable pub nlink : ℕ → List DirTag → ℕ
unfolding refs
nlink b ds = 1 + refs b ds
