-- ===== src/Utils/Paquetes/Lectura.antt =====
-- Chains of writes and of reads over a buffer, as serializacion.c makes them. A step that fails
-- (it would leave the allocation) fails the chain.
use trabajo_practico_de_sist.Comun.{ℕ, Option, none, some}
use trabajo_practico_de_sist.Comun
use trabajo_practico_de_sist.Utils.Paquetes.{Buffer}

-- First one write, then the next, on the same buffer.
infixr 6 ◌▸◌
abbrev pub ◌▸◌ : (Buffer → Option Buffer) → (Buffer → Option Buffer) → Buffer → Option Buffer
◌▸◌ w v b = Comun.◌>>=◌ (w b) v

abbrev pub Lectura : Type 0 → Type 0
Lectura A = Buffer → Option (A × Buffer)

abbrev pub devolver : {A : Type 0} → A → Lectura A
devolver a b = some (a, b)

infixl 5 ◌>>=◌
abbrev pub ◌>>=◌ : {A B : Type 0} → Lectura A → (A → Lectura B) → Lectura B
◌>>=◌ m f b = elim (m b) [ none ↦ none | some (a, b') ↦ f a b' ]
