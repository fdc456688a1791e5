-- ===== src/Utils/Paquetes/Laws.antt =====
-- Writers and readers over a buffer: what a chain of them writes, and what reads it back.
use trabajo_practico_de_sist.Comun.{
  ℕ, zero, suc, ◌+◌, ◌^◌, ◌≤◌, ◌<◌, ◌≡◌, refl, ◌∙◌, List, [], ◌∷◌, ◌++◌, Option, some, length, drop,
  le→leb, take-length, length-append, append_assoc, append-nil, take-length_append,
  drop-length_append, arith,
}
use trabajo_practico_de_sist.Utils.Paquetes.{
  Buffer, agregar_buffer, leer_buffer, entero, valor, agregar_entero, leer_entero,
}
use trabajo_practico_de_sist.Utils.Paquetes.Lectura.{◌▸◌, Lectura, ◌>>=◌, devolver}

-- A buffer of `n` bytes into which `s` was written.
abbrev pub escrito : ℕ → List ℕ → Buffer
escrito n s = record { size = n; offset = length s; stream = s }

-- The buffer over `st`, read up to the end of `antes`.
abbrev pub leido : ℕ → List ℕ → List ℕ → Buffer
leido n st antes = record { size = n; offset = length antes; stream = st }

-- Where there is room, `w` adds exactly `bytes`.
pub record Escribe (w : Buffer → Option Buffer) (bytes : List ℕ) : Type 0 where
  pub at :
      (n : ℕ) (s : List ℕ)
      → length s + length bytes ≤ n
      → w (escrito n s) ≡ some (escrito n (s ++ bytes))

-- Where `bytes` come next, `m` takes exactly them and returns `a`.
pub record Lee {A : Type 0} (m : Lectura A) (bytes : List ℕ) (a : A) : Type 0 where
  pub at :
      (n : ℕ) (st antes resto : List ℕ)
      → st ≡ antes ++ (bytes ++ resto)
      → m (leido n st antes) ≡ some (a, leido n st (antes ++ bytes))

drop-ge : (n : ℕ) (xs : List ℕ) → length xs ≤ n → drop n xs ≡ []
drop-ge zero [] h = refl
drop-ge zero (x ∷ xs) h = absurd (omega arith)
drop-ge (suc n) [] h = refl
drop-ge (suc n) (x ∷ xs) h = drop-ge n xs (omega arith)

pub Escribe-agregar_buffer : (d : List ℕ) → Escribe (agregar_buffer d) d
unfolding agregar_buffer
Escribe-agregar_buffer d = record {
  at = λ n s h. rw (
    le→leb (length s + length d) n h,
    drop-ge (length s + length d) s (omega arith),
    append-nil,
    take-length s,
    length-append s d,
  );
}

pub Escribe-agregar_entero : (w : ℕ) → Escribe (agregar_entero w) (entero w)
unfolding agregar_entero
Escribe-agregar_entero w = Escribe-agregar_buffer (entero w)

pub Escribe-▸ :
    {w v : Buffer → Option Buffer} {xs ys : List ℕ}
    → Escribe w xs
    → Escribe v ys
    → Escribe (w ▸ v) (xs ++ ys)
Escribe-▸ {w} {v} {xs} {ys} hw hv = record {
  at = λ n s h. rw (hw.at n s (omega (arith, length-append xs ys))) (
      hv.at n (s ++ xs) (omega (arith, length-append xs ys, length-append s xs)) ∙ rw append_assoc);
}

pub Lee-leer_buffer : (n : ℕ) (d : List ℕ) → length d ≡ n → Lee (leer_buffer n) d d
unfolding leer_buffer
Lee-leer_buffer n d h = record {
  at = λ m st antes resto e. rw (
    e,
    ← h,
    drop-length_append antes (d ++ resto),
    take-length_append d resto,
    length-append antes (d ++ resto),
    length-append d resto,
    length-append antes d,
    le→leb (length antes + length d) (length antes + (length d + length resto)) (omega arith),
  );
}

pub length-entero : (w : ℕ) → length (entero w) ≡ 4
unfolding entero
length-entero w = refl

pub valor-entero : (w : ℕ) → w < 2 ^ 32 → valor (entero w) ≡ w
unfolding valor entero
valor-entero w h = omega arith

pub Lee-leer_entero : (w : ℕ) → w < 2 ^ 32 → Lee leer_entero (entero w) w
unfolding leer_entero
Lee-leer_entero w h = record {
  at = λ n st antes resto e.
      rw ((Lee-leer_buffer 4 (entero w) (length-entero w)).at n st antes resto e)
        (rw (valor-entero w h));
}

pub Lee-devolver : {A : Type 0} (a : A) → Lee (devolver a) [] a
Lee-devolver a = record { at = λ n st antes resto h. rw append-nil }

pub Lee->>= :
    {A B : Type 0} (m : Lectura A) (f : A → Lectura B) {xs ys : List ℕ} {a : A} {c : B}
    → Lee m xs a
    → Lee (f a) ys c
    → Lee (m >>= f) (xs ++ ys) c
Lee->>= m f {xs} {ys} {a} {c} hm hf = record {
  at = λ n st antes resto h.
      rw (◌>>=◌, hm.at n st antes (ys ++ resto) (h ∙ rw append_assoc))
        (hf.at n st (antes ++ xs) resto (h ∙ simp append_assoc) ∙ rw append_assoc);
}

pub Lee-ultimo :
    {A B : Type 0} (m : Lectura A) (g : A → B) {xs : List ℕ} {a : A} {c : B}
    → Lee m xs a
    → g a ≡ c
    → Lee (m >>= λ x. devolver (g x)) xs c
Lee-ultimo m g h e = record {
  at = λ n st antes resto eq. rw (◌>>=◌, h.at n st antes resto eq) (rw e);
}
