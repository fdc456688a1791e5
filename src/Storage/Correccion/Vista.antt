-- ===== src/Storage/Correccion/Vista.antt =====
-- A file:tag as a Worker sees it: its metadata and the contents of its blocks.
use trabajo_practico_de_sist.Comun.{
  ℕ, zero, suc, ◌≡◌, ◌⊎◌, refl, ap, List, [], ◌∷◌, ◌++◌, Option, none, some, true, false, ◌&&◌,
  length, take, replicate, eq_bytes, inl, ◌>>=◌,
}
use trabajo_practico_de_sist.Utils.Estructuras.{Instruccion, correcto, RespuestaStorage}
use trabajo_practico_de_sist.Storage.Estado.{
  Externos, Superblock, Metadata, Estado, DirTag, Fs, buscar_tag, es_tag,
}
use trabajo_practico_de_sist.Storage.Estado.Laws.{poner, buscar_tag-poner, buscar_tag-poner_other}
use trabajo_practico_de_sist.Storage.Verificar.{Falta, codigo_de, texto, error_por, Veredicto}
use trabajo_practico_de_sist.Storage.Operaciones.Base.{Salida, si_valida, enviar_respuesta_a_worker}
use trabajo_practico_de_sist.Storage.Invariante.Bien.{Bien}

pub record Contenido : Type 0 where
  pub estado : Estado
  pub tamanio : ℕ
  pub bloques : List (Option (List ℕ))

abbrev pub leer_todos : (ℕ → Option (List ℕ)) → List ℕ → List (Option (List ℕ))
leer_todos fisicos [] = []
leer_todos fisicos (b ∷ bs) = fisicos b ∷ leer_todos fisicos bs

abbrev pub ver : (ℕ → Option (List ℕ)) → Metadata → Contenido
ver fisicos m = record {
  estado = m.estado;
  tamanio = m.tamanio;
  bloques = leer_todos fisicos m.bloques;
}

-- The file:tag; `none` if there is none.
unfoldable pub vista : {B : Type 0} → List ℕ → List ℕ → Fs B → Option Contenido
vista f t s = do d ← buscar_tag f t s.tags; m ← d.metadata; some (ver s.fisicos m)

-- The names are not those of the file:tag f:t.
abbrev pub OtroTag : List ℕ → List ℕ → List ℕ → List ℕ → Type 0
OtroTag f t f' t' = (eq_bytes f' f && eq_bytes t' t) ≡ false

-- The reply of an operation that was done.
abbrev pub exito : Superblock → RespuestaStorage
exito sb = enviar_respuesta_a_worker sb correcto none []

module _ {B : Type 0} where
  -- The other file:tags are as they were.
  abbrev pub OtrosIguales : List ℕ → List ℕ → Fs B → Fs B → Type 0
  OtrosIguales f t s s' = (f' t' : List ℕ) → OtroTag f t f' t' → vista f' t' s' ≡ vista f' t' s

  pub vista-eq :
      (f t : List ℕ) (s : Fs B) {d : DirTag} {m : Metadata}
      → buscar_tag f t s.tags ≡ some d
      → d.metadata ≡ some m
      → vista f t s ≡ some (ver s.fisicos m)
  unfolding vista
  vista-eq f t s hd hm = rw (hd, hm) refl

  pub vista-poner :
      (f t : List ℕ) (s s' : Fs B) (d' : DirTag) {d : DirTag} {m : Metadata}
      → buscar_tag f t s.tags ≡ some d
      → es_tag f t d' ≡ true
      → d'.metadata ≡ some m
      → s'.tags ≡ poner f t d' s.tags
      → s'.fisicos ≡ s.fisicos
      → vista f t s' ≡ some (ver s.fisicos m)
  vista-poner f t s s' d' {d} hd k hm et ef =
      rw (← ef) (vista-eq f t s' {d = d'} (rw et (buscar_tag-poner f t d' s.tags {d = d} hd k)) hm)

  pub otros-poner :
      (f t : List ℕ) (s s' : Fs B) (d' : DirTag)
      → es_tag f t d' ≡ true
      → s'.tags ≡ poner f t d' s.tags
      → s'.fisicos ≡ s.fisicos
      → OtrosIguales f t s s'
  unfolding vista
  otros-poner f t s s' d' k et ef f' t' n =
      rw (et, ef, buscar_tag-poner_other f t f' t' d' s.tags n k) refl

  -- The operation ends and keeps the invariant. It was rejected, with the reply of one of the
  -- checks and nothing changed, or `P` holds.
  abbrev pub Resultado :
      Externos B
      → Superblock
      → Instruccion
      → Fs B
      → Salida B
      → (Fs B → RespuestaStorage → Type 0)
      → Type 0
  Resultado ext sb ins s o P =
      (s' : Fs B) × (r : RespuestaStorage) × (o ≡ some (s', r))
      × Bien ext sb s'
      × (((s' ≡ s)
            × ((falta : Falta) × (r
                  ≡ enviar_respuesta_a_worker sb (codigo_de falta) none (texto falta ins))))
          ⊎ P s' r)

-- A check that fails ends the operation.
pub rechazado :
    {B : Type 0} (ext : Externos B) (sb : Superblock) (ins : Instruccion) (s : Fs B)
    (v : Option Veredicto) (resto : Salida B) (P : Fs B → RespuestaStorage → Type 0) (falta : Falta)
    → Bien ext sb s
    → v ≡ some (error_por falta ins)
    → Resultado ext sb ins s (si_valida sb v s resto) P
unfolding error_por
rechazado ext sb ins s v resto P falta w e = (
  s,
  enviar_respuesta_a_worker sb (codigo_de falta) none (texto falta ins),
  rw e refl,
  w,
  inl (refl, (falta, refl)),
)

pub leer_todos-append :
    (φ : ℕ → Option (List ℕ)) (xs ys : List ℕ)
    → leer_todos φ (xs ++ ys) ≡ leer_todos φ xs ++ leer_todos φ ys
leer_todos-append φ [] ys = refl
leer_todos-append φ (x ∷ xs) ys = ap (◌∷◌ (φ x)) (leer_todos-append φ xs ys)

pub leer_todos-take :
    (φ : ℕ → Option (List ℕ)) (n : ℕ) (xs : List ℕ)
    → leer_todos φ (take n xs) ≡ take n (leer_todos φ xs)
leer_todos-take φ zero xs = refl
leer_todos-take φ (suc n) [] = refl
leer_todos-take φ (suc n) (x ∷ xs) = ap (◌∷◌ (φ x)) (leer_todos-take φ n xs)

pub leer_todos-replicate :
    (φ : ℕ → Option (List ℕ)) (n b : ℕ) → leer_todos φ (replicate n b) ≡ replicate n (φ b)
leer_todos-replicate φ zero b = refl
leer_todos-replicate φ (suc n) b = ap (◌∷◌ (φ b)) (leer_todos-replicate φ n b)

pub length-leer_todos :
    (φ : ℕ → Option (List ℕ)) (xs : List ℕ) → length (leer_todos φ xs) ≡ length xs
length-leer_todos φ [] = refl
length-leer_todos φ (x ∷ xs) = ap suc (length-leer_todos φ xs)
