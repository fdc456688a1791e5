-- ===== src/Worker/Rechazos.antt =====
-- worker/src/memoria.c: the stretches of escribirMemoria and leerMemoria that end it with a reply.
use trabajo_practico_de_sist.Comun.{
  bind-some, some_inj, ℕ, ◌+◌, ◌-◌, ◌/◌, ◌≡◌, ap, sym, ◌≤◌, ◌<◌, List, Option, some, none, true,
  false, arith, ◌>>=◌, subst, Bool, Bool-cases, inl, inr, if◌then◌else◌,
}
use native.Mathlib.Nat.{add-div_left}
use trabajo_practico_de_sist.Utils.Estructuras.{RespuestaStorage}
use trabajo_practico_de_sist.Worker.Estado.{Nodo, Entorno}
use trabajo_practico_de_sist.Worker.Marcos.{realizar_lectura_de_bloque}
use trabajo_practico_de_sist.Worker.Bloques.{
  Paso, sigue, corta, es_correcto, es_acceso, con_bloque, luego, marcos_necesarios,
}

-- The stretch goes on: it does not return a reply.
abbrev pub Sigue : {S : Type 0} {A : Type 0} → Nodo S × Paso A → Type 0
Sigue {S = S} {A = A} x = (s : Nodo S) × (a : A) × (x ≡ (s, sigue a))

pub bind-Sigue :
    {S : Type 0} {A B : Type 0} (o : Option B) (f : B → Option (Nodo S × Paso A))
    (x : Nodo S × Paso A)
    → ((y : B) → f y ≡ some x → Sigue x)
    → o >>= f ≡ some x
    → Sigue x
bind-Sigue o f x k h = let b = bind-some o f h in k b.0 b.2

pub some-Sigue :
    {S : Type 0} {A : Type 0} (s : Nodo S) (a : A) (x : Nodo S × Paso A)
    → some (s, sigue a) ≡ some x
    → Sigue x
some-Sigue s a x h = (s, a, sym (some_inj h))

module _ {S : Type 0} (ent : Entorno S) (id : ℕ) (file_tag : List ℕ) (desde hasta : ℕ) where
  -- The state and the reply after realizarLecturaDeBloque of a page of the range, not CORRECTO.
  abbrev pub Rechazado : Nodo S → RespuestaStorage → Type 0
  Rechazado s' r =
      (n : ℕ) × (desde ≤ n)
      × (n < hasta)
      × (s0 : Nodo S) × (realizar_lectura_de_bloque ent file_tag n id s0 ≡ some (s', r))
      × (es_correcto r.cod_respuesta ≡ false)

  abbrev pub Termina : {A : Type 0} → Nodo S × Paso A → Type 0
  Termina (s', sigue a) = Unit
  Termina (s', corta r) = Rechazado s' r

  pub Sigue-Termina : {A : Type 0} (x : Nodo S × Paso A) → Sigue x → Termina x
  Sigue-Termina x (s, a, e) = subst Termina (sym e) tt

  pub con_bloque-Termina :
      {A : Type 0} (n : ℕ) (exito : RespuestaStorage → Nodo S → Option (Nodo S × Paso A))
      (s : Nodo S) (x : Nodo S × Paso A)
      → desde ≤ n
      → n < hasta
      → ((r : RespuestaStorage) (s1 : Nodo S) → exito r s1 ≡ some x → Sigue x)
      → con_bloque ent file_tag n id exito s ≡ some x
      → Termina x
  unfolding con_bloque
  con_bloque-Termina n exito s x d m k h =
      let b = bind-some (realizar_lectura_de_bloque ent file_tag n id s) _ h in
      elim (Bool-cases (es_correcto b.0.1.cod_respuesta)) [
        | inl si ↦ Sigue-Termina x (k b.0.1 b.0.0 (rw si at b.2))
        | inr no' ↦ subst Termina (some_inj (rw no' at b.2)) (n, d, m, s, b.1, no')
      ]

  pub luego-Termina :
      {A B : Type 0} (x : Nodo S × Paso A) (f : A → Nodo S → Option (Nodo S × Paso B))
      (y : Nodo S × Paso B)
      → Termina x
      → ((a : A) (s1 : Nodo S) → f a s1 ≡ some y → Termina y)
      → luego x f ≡ some y
      → Termina y
  unfolding luego
  luego-Termina (s, sigue a) f y t k h = k a s h
  luego-Termina (s, corta r) f y t k h = subst Termina (some_inj h) t

-- An access to one byte at least reaches a page.
pub hay_marcos :
    (base bytes tam : ℕ)
    → 0 < bytes
    → es_acceso base bytes tam ≡ true
    → 0 < marcos_necesarios bytes tam
unfolding es_acceso marcos_necesarios
hay_marcos base bytes tam h e =
    let t : 0 < tam = ground (arith, e) in
    let d = add-div_left (bytes - 1) t in
    let c : bytes + tam - 1 ≡ tam + (bytes - 1) = omega (arith, h) in
    omega (arith, d, ap (λ k. k / tam) c)

-- What an if leads to that crashes where its test holds, when it does not.
pub de_otro_modo :
    {A : Type 0} (b : Bool) (o : Option A) (x : A)
    → b ≡ false
    → (if b then none else o) ≡ some x
    → o ≡ some x
de_otro_modo true o x p e = absurd (cc p)
de_otro_modo false o x p e = e
