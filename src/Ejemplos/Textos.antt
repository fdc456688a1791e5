-- ===== src/Ejemplos/Textos.antt =====
-- A string_split and a string_itoa written out, with what the theorems ask of them.
use trabajo_practico_de_sist.Comun.{
  ℕ, zero, suc, ◌+◌, ◌*◌, ◌/◌, ◌%◌, ◌^◌, ◌<◌, ◌≡◌, ◌≢◌, refl, ap, sym, ◌∙◌, List, [], ◌∷◌, ◌++◌,
  true, false, ◌==◌, ltb, leb, ◌&&◌, arith, All, append-nil, append_assoc, inl, inr, Bool-cases,
}
use trabajo_practico_de_sist.Utils.Enteros.{Textos, atoi, digitos, con_signo, es_blanco}
use trabajo_practico_de_sist.Utils.Separados.{unir, Separa, Decimal, EsDigito}

-- `acumulado` is the word that is being read.
abbrev pub cortar : (sep : ℕ) (acumulado : List ℕ) → List ℕ → List (List ℕ)
cortar sep acumulado [] = acumulado ∷ []
cortar sep acumulado (c ∷ cs) = elim (c == sep) [
  | true ↦ acumulado ∷ cortar sep [] cs
  | false ↦ cortar sep (acumulado ++ c ∷ []) cs
]

abbrev pub partir : List ℕ → ℕ → List (List ℕ)
partir texto sep = cortar sep [] texto

cortar-solo :
    (sep : ℕ) (acumulado w : List ℕ)
    → All (λ b. b ≢ sep) w
    → cortar sep acumulado w ≡ (acumulado ++ w) ∷ []
cortar-solo sep acumulado [] h = ap (λ x. x ∷ []) (sym (append-nil acumulado))
cortar-solo sep acumulado (b ∷ w) h =
    let n = h.0 in
    let e : (b == sep) ≡ false = ground (arith, n) in
    rw (e, cortar)
      (cortar-solo sep (acumulado ++ b ∷ []) w h.1
        ∙ ap (λ x. x ∷ []) (append_assoc acumulado (b ∷ []) w))

cortar-sep :
    (sep : ℕ) (acumulado w resto : List ℕ)
    → All (λ b. b ≢ sep) w
    → cortar sep acumulado (w ++ sep ∷ resto) ≡ (acumulado ++ w) ∷ cortar sep [] resto
cortar-sep sep acumulado [] resto h =
    let e : (sep == sep) ≡ true = ground arith in
    rw (e, cortar) (ap (λ x. x ∷ cortar sep [] resto) (sym (append-nil acumulado)))
cortar-sep sep acumulado (b ∷ w) resto h =
    let n = h.0 in
    let e : (b == sep) ≡ false = ground (arith, n) in
    rw (e, cortar)
      (cortar-sep sep (acumulado ++ b ∷ []) w resto h.1
        ∙ ap (λ x. x ∷ cortar sep [] resto) (append_assoc acumulado (b ∷ []) w))

pub partir-Separa : Separa partir
partir-Separa sep w [] h = cortar-solo sep [] w h.0.1
partir-Separa sep w (v ∷ ws) h =
    cortar-sep sep [] w (unir sep (v ∷ ws)) h.0.1 ∙ ap (◌∷◌ w) (partir-Separa sep v ws h.1)

-- The decimal digits of n before `cola`, on enough fuel.
abbrev pub decimales : (fuel n : ℕ) (cola : List ℕ) → List ℕ
decimales zero n cola = (48 + n % 10) ∷ cola
decimales (suc fuel) n cola = elim (ltb n 10) [
  | true ↦ (48 + n) ∷ cola
  | false ↦ decimales fuel (n / 10) ((48 + n % 10) ∷ cola)
]

abbrev pub itoa : ℕ → List ℕ
itoa n = decimales 10 n []

-- A number below it has at most one digit more than the fuel.
abbrev cota : ℕ → ℕ
cota zero = 10
cota (suc fuel) = 10 * cota fuel

decimales-digitos :
    (fuel n : ℕ) (cola : List ℕ) → All EsDigito cola → All EsDigito (decimales fuel n cola)
decimales-digitos zero n cola h = ((omega arith, omega arith), h)
decimales-digitos (suc fuel) n cola h = elim (Bool-cases (ltb n 10)) [
  | inl si ↦ rw (si, decimales) ((omega arith, ground (arith, si)), h)
  | inr no' ↦
      rw (no', decimales)
        (decimales-digitos fuel (n / 10) ((48 + n % 10) ∷ cola) ((omega arith, omega arith), h))
]

decimales-algo : (fuel n : ℕ) (cola : List ℕ) → decimales fuel n cola ≢ []
decimales-algo zero n cola e = absurd (cc e)
decimales-algo (suc fuel) n cola e = elim (Bool-cases (ltb n 10)) [
  | inl si ↦ absurd (cc (rw (si, decimales) at e))
  | inr no' ↦ decimales-algo fuel (n / 10) ((48 + n % 10) ∷ cola) (rw (no', decimales) at e)
]

digitos-paso :
    (m d : ℕ) (cola : List ℕ) → d < 10 → digitos m ((48 + d) ∷ cola) ≡ digitos (m * 10 + d) cola
unfolding digitos
digitos-paso m d cola h =
    let e : (leb 48 (48 + d) && leb (48 + d) 57) ≡ true = ground (arith, h) in
    rw (e, digitos) (ap (λ k. digitos k cola) (omega arith))

decimales-valor :
    (fuel n : ℕ) (cola : List ℕ)
    → n < cota fuel
    → digitos 0 (decimales fuel n cola) ≡ digitos n cola
decimales-valor zero n cola h =
    digitos-paso 0 (n % 10) cola (omega arith) ∙ ap (λ k. digitos k cola) (omega arith)
decimales-valor (suc fuel) n cola h = elim (Bool-cases (ltb n 10)) [
  | inl si ↦
      rw (si, decimales)
        (digitos-paso 0 n cola (ground (arith, si)) ∙ ap (λ k. digitos k cola) (omega arith))
  | inr no' ↦
      rw (no', decimales)
        (decimales-valor fuel (n / 10) ((48 + n % 10) ∷ cola) (omega (arith, h))
          ∙ digitos-paso (n / 10) (n % 10) cola (omega arith)
          ∙ ap (λ k. digitos k cola) (omega arith))
]

-- A text of digits alone has neither spaces nor a sign.
atoi-digitos : (w : List ℕ) → All EsDigito w → atoi w ≡ digitos 0 w % 2 ^ 32
unfolding atoi con_signo es_blanco digitos
atoi-digitos [] h = refl
atoi-digitos (c ∷ w) h =
    let a = h.0.0 in
    let e : es_blanco c ≡ false = ground (arith, a) in
    let f : (c == 45) ≡ false = ground (arith, a) in
    let g : (c == 43) ≡ false = ground (arith, a) in rw (e, atoi) (rw (f, con_signo) (rw g refl))

pub itoa-Decimal : Decimal itoa
unfolding digitos
itoa-Decimal = record {
  digitos = λ n h. decimales-digitos 10 n [] tt;
  algo = λ n h. decimales-algo 10 n [];
  valor = λ n h.
      atoi-digitos (itoa n) (decimales-digitos 10 n [] tt)
      ∙ ap (λ k. k % 2 ^ 32) (decimales-valor 10 n [] (omega (arith, h)))
      ∙ omega (arith, h);
}

abbrev pub textos : Textos
textos = record { partir = partir; itoa = itoa }
