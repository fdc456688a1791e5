-- ===== src/Storage/Invariante/Bucles.antt =====
-- The loops of TRUNCATE, TAG and DELETE over the links of a file:tag.
use trabajo_practico_de_sist.Comun.{
  ℕ, zero, suc, ◌+◌, ◌<◌, ◌≤◌, ◌≡◌, refl, sym, ap, ◌∙◌, List, [], ◌∷◌, ◌++◌, none, some, true,
  length, length-append, length-take, take, take-length, replicate, All, get_elem?, get_elem?-total,
  arith,
}
use trabajo_practico_de_sist.Storage.Estado.{Externos, Superblock, DirTag, Fs, buscar_tag, es_tag}
use trabajo_practico_de_sist.Storage.Estado.Laws.{
  poner, buscar_tag-poner, buscar_tag-es_tag, poner-poner, poner-same,
}
use trabajo_practico_de_sist.Storage.Enlaces.{refs, borrar}
use trabajo_practico_de_sist.Storage.Enlaces.Laws.{
  enum, destino, destino-get_elem?, destino-fin, insertar-fin, borrar-ultimo,
}
use trabajo_practico_de_sist.Storage.Bloques.{
  enlazar, desenlazar, agregar_hard_link, eliminar_hard_link,
}
use trabajo_practico_de_sist.Storage.Operaciones.Archivos.{
  quitar, crecer, achicar, enlazar_todos, desenlazar_todos,
}
use trabajo_practico_de_sist.Storage.Invariante.{Nucleo}
use trabajo_practico_de_sist.Storage.Invariante.Enlace.{
  Sigue, refs-enlazar, agregar_hard_link-Sigue, eliminar_hard_link-Sigue,
}

quitar-ultimo : (m : ℕ) (bs : List ℕ) → length bs ≡ suc m → quitar m bs ≡ take m bs
unfolding quitar
quitar-ultimo m [] h = absurd (omega arith)
quitar-ultimo zero (b ∷ []) h = refl
quitar-ultimo zero (b ∷ c ∷ bs) h = absurd (omega arith)
quitar-ultimo (suc m) (b ∷ bs) h = ap (◌∷◌ b) (quitar-ultimo m bs (omega arith))

take-take : (m n : ℕ) (bs : List ℕ) → m ≤ n → take m (take n bs) ≡ take m bs
take-take zero n bs h = refl
take-take (suc m) zero bs h = absurd (omega arith)
take-take (suc m) (suc n) [] h = refl
take-take (suc m) (suc n) (b ∷ bs) h = ap (◌∷◌ b) (take-take m n bs (omega arith))

append-replicate :
    (n c : ℕ) (bs : List ℕ) → (bs ++ c ∷ []) ++ replicate n c ≡ bs ++ (c ∷ replicate n c)
append-replicate n c [] = refl
append-replicate n c (b ∷ bs) = ap (◌∷◌ b) (append-replicate n c bs)

pub append-snoc : (bs : List ℕ) (c : ℕ) (cs : List ℕ) → (bs ++ c ∷ []) ++ cs ≡ bs ++ (c ∷ cs)
append-snoc [] c cs = refl
append-snoc (b ∷ bs) c cs = ap (◌∷◌ b) (append-snoc bs c cs)

pub append-nil : (bs : List ℕ) → bs ++ [] ≡ bs
append-nil [] = refl
append-nil (b ∷ bs) = ap (◌∷◌ b) (append-nil bs)

-- The directory with other links.
abbrev pub con_logicos : List (ℕ × ℕ) → DirTag → DirTag
con_logicos l d = record d { logicos = l }

module _ {B : Type 0} (ext : Externos B) (sb : Superblock) where
  pub Sigue-refl :
      (s : Fs B) (f t : List ℕ) (l : List (ℕ × ℕ)) (d : DirTag)
      → Nucleo ext sb s
      → buscar_tag f t s.tags ≡ some d
      → d.logicos ≡ l
      → Sigue ext sb s s (poner f t (con_logicos l d) s.tags)
  Sigue-refl s f t l d n hd hl = record {
    nucleo = n;
    tags = rw (← hl) (sym (poner-same f t s.tags {d = d} hd));
    fisicos = refl;
    dirs = refl;
    bits = refl;
  }

  pub Sigue-trans :
      (s s1 s2 : Fs B) (f t : List ℕ) (d1 d2 : DirTag)
      → es_tag f t d1 ≡ true
      → Sigue ext sb s s1 (poner f t d1 s.tags)
      → Sigue ext sb s1 s2 (poner f t d2 s1.tags)
      → Sigue ext sb s s2 (poner f t d2 s.tags)
  Sigue-trans s s1 s2 f t d1 d2 k a b = record {
    nucleo = b.nucleo;
    tags = b.tags ∙ (ap (poner f t d2) a.tags ∙ poner-poner f t d1 d2 s.tags k);
    fisicos = b.fisicos ∙ a.fisicos;
    dirs = b.dirs ∙ a.dirs;
    bits = b.bits ∙ a.bits;
  }

  pub buscar-Sigue :
      (s s1 : Fs B) (f t : List ℕ) (d d1 : DirTag)
      → buscar_tag f t s.tags ≡ some d
      → es_tag f t d1 ≡ true
      → Sigue ext sb s s1 (poner f t d1 s.tags)
      → buscar_tag f t s1.tags ≡ some d1
  buscar-Sigue s s1 f t d d1 hd k a = rw (a.tags) (buscar_tag-poner f t d1 s.tags {d = d} hd k)

  -- The loop that shrinks a tag leaves its first `hasta` blocks.
  pub achicar-Sigue :
      (n hasta : ℕ) (f t bs : List ℕ) (s : Fs B) (d : DirTag)
      → Nucleo ext sb s
      → buscar_tag f t s.tags ≡ some d
      → d.logicos ≡ enum 0 bs
      → length bs ≡ hasta + n
      → (s' : Fs B) × (achicar ext sb n hasta f t bs s ≡ some (take hasta bs, s'))
        × Sigue ext sb s s' (poner f t (con_logicos (enum 0 (take hasta bs)) d) s.tags)
  unfolding achicar
  achicar-Sigue zero hasta f t bs s d n hd hl e =
      rw (todo) (s, refl, Sigue-refl s f t (enum 0 bs) d n hd hl)
    where
      largo : hasta ≡ length bs
      largo = omega (arith, e)

      todo : take hasta bs ≡ bs
      todo = rw (largo) (take-length bs)
  achicar-Sigue (suc k) hasta f t bs s d n hd hl e =
      let resto =
        achicar-Sigue k hasta f t (take m bs) paso.0 (desenlazar m d) paso.2.nucleo
          (buscar-Sigue s paso.0 f t d (desenlazar m d) hd es paso.2)
          (rw hl (borrar-ultimo m bs largo)) (length-take m bs (omega arith)) in
      rw (bloque.1, paso.1, quitar-ultimo m bs largo, resto.1, take-take hasta m bs (omega arith))
        (
          resto.0,
          refl,
          Sigue-trans s paso.0 resto.0 f t (desenlazar m d) (con_logicos (enum 0 (take hasta bs)) d)
              es paso.2 (rw (take-take hasta m bs (omega arith)) at resto.2),
        )
    where
      m : ℕ
      m = hasta + k

      largo : length bs ≡ suc m
      largo = omega (arith, e)

      bloque : (b : ℕ) × (get_elem? bs m ≡ some b)
      bloque = get_elem?-total bs m (omega (arith, e))

      es : es_tag f t d ≡ true
      es = buscar_tag-es_tag f t s.tags {d = d} hd

      paso :
          (s1 : Fs B) × (eliminar_hard_link ext sb bloque.0 f t m s ≡ some s1)
          × Sigue ext sb s s1 (poner f t (desenlazar m d) s.tags)
      paso =
          eliminar_hard_link-Sigue ext sb s f t m bloque.0 d n hd
            (rw hl (destino-get_elem? m bs ∙ bloque.1))

  -- The loop that grows a tag links its new blocks to block 0.
  pub crecer-Sigue :
      (n : ℕ) (f t bs : List ℕ) (s : Fs B) (d : DirTag)
      → Nucleo ext sb s
      → buscar_tag f t s.tags ≡ some d
      → d.logicos ≡ enum 0 bs
      → 0 < refs 0 s.tags
      → (s' : Fs B) × (crecer ext sb n (length bs) f t bs s ≡ (bs ++ replicate n 0, s'))
        × Sigue ext sb s s' (poner f t (con_logicos (enum 0 (bs ++ replicate n 0)) d) s.tags)
  unfolding crecer
  crecer-Sigue zero f t bs s d n hd hl pos =
      rw (append-nil bs) (s, refl, Sigue-refl s f t (enum 0 bs) d n hd hl)
  crecer-Sigue (suc k) f t bs s d n hd hl pos =
      let resto =
        crecer-Sigue k f t (bs ++ 0 ∷ []) s1 d1 paso.nucleo (buscar-Sigue s s1 f t d d1 hd es paso)
          (rw hl (insertar-fin bs 0))
          (rw (paso.tags, refs-enlazar ext sb f t (length bs) 0 s.tags d hd fin 0) (omega arith)) in
      rw (← largo, resto.1, append-snoc bs 0 (replicate k 0))
        (
          resto.0,
          refl,
          Sigue-trans s s1 resto.0 f t d1 (con_logicos (enum 0 (bs ++ 0 ∷ replicate k 0)) d) es paso
              (rw (append-snoc bs 0 (replicate k 0)) at resto.2),
        )
    where
      s1 : Fs B
      s1 = agregar_hard_link ext 0 f t (length bs) s

      d1 : DirTag
      d1 = enlazar (length bs) 0 d

      fin : destino (length bs) d.logicos ≡ none
      fin = rw hl (destino-fin bs)

      largo : length (bs ++ 0 ∷ []) ≡ length bs + 1
      largo = length-append bs (0 ∷ [])

      es : es_tag f t d ≡ true
      es = buscar_tag-es_tag f t s.tags {d = d} hd

      paso : Sigue ext sb s s1 (poner f t d1 s.tags)
      paso = agregar_hard_link-Sigue ext sb s f t (length bs) 0 d n hd fin pos

  -- The loop of TAG links the copy to every block of the source.
  pub enlazar_todos-Sigue :
      (f t pre bs : List ℕ) (s : Fs B) (d : DirTag)
      → Nucleo ext sb s
      → buscar_tag f t s.tags ≡ some d
      → d.logicos ≡ enum 0 pre
      → All (λ b. 0 < refs b s.tags) bs
      → let s' = enlazar_todos ext sb (length pre) f t bs s in
        Sigue ext sb s s' (poner f t (con_logicos (enum 0 (pre ++ bs)) d) s.tags)
  unfolding enlazar_todos
  enlazar_todos-Sigue f t pre [] s d n hd hl pos =
      rw (append-nil pre) (Sigue-refl s f t (enum 0 pre) d n hd hl)
  enlazar_todos-Sigue f t pre (b ∷ bs) s d n hd hl pos =
      let resto =
        enlazar_todos-Sigue f t (pre ++ b ∷ []) bs s1 d1 paso.nucleo
          (buscar-Sigue s s1 f t d d1 hd es paso) (rw hl (insertar-fin pre b)) (mas bs pos.1) in
      rw (← largo) (
        Sigue-trans s s1 _ f t d1 (con_logicos (enum 0 (pre ++ b ∷ bs)) d) es paso
          (rw (append-snoc pre b bs) at resto))
    where
      s1 : Fs B
      s1 = agregar_hard_link ext b f t (length pre) s

      d1 : DirTag
      d1 = enlazar (length pre) b d

      fin : destino (length pre) d.logicos ≡ none
      fin = rw hl (destino-fin pre)

      largo : length (pre ++ b ∷ []) ≡ length pre + 1
      largo = length-append pre (b ∷ [])

      es : es_tag f t d ≡ true
      es = buscar_tag-es_tag f t s.tags {d = d} hd

      paso : Sigue ext sb s s1 (poner f t d1 s.tags)
      paso = agregar_hard_link-Sigue ext sb s f t (length pre) b d n hd fin pos.0

      mas : (cs : List ℕ) → All (λ c. 0 < refs c s.tags) cs → All (λ c. 0 < refs c s1.tags) cs
      mas [] h = tt
      mas (c ∷ cs) h = (
        rw (paso.tags, refs-enlazar ext sb f t (length pre) b s.tags d hd fin c)
            (omega (arith, h.0)),
        mas cs h.1,
      )

  -- The loop of DELETE leaves no link.
  pub desenlazar_todos-Sigue :
      (i : ℕ) (f t bs : List ℕ) (s : Fs B) (d : DirTag)
      → Nucleo ext sb s
      → buscar_tag f t s.tags ≡ some d
      → d.logicos ≡ enum i bs
      → (s' : Fs B) × (desenlazar_todos ext sb i f t bs s ≡ some s')
        × Sigue ext sb s s' (poner f t (con_logicos [] d) s.tags)
  unfolding desenlazar_todos borrar
  desenlazar_todos-Sigue i f t [] s d n hd hl = (s, refl, Sigue-refl s f t [] d n hd hl)
  desenlazar_todos-Sigue i f t (b ∷ bs) s d n hd hl =
      let resto =
        desenlazar_todos-Sigue (i + 1) f t bs paso.0 (desenlazar i d) paso.2.nucleo
          (buscar-Sigue s paso.0 f t d (desenlazar i d) hd es paso.2) menos in
      rw (paso.1) (
        resto.0,
        resto.1,
        Sigue-trans s paso.0 resto.0 f t (desenlazar i d) (con_logicos [] d) es paso.2 resto.2,
      )
    where
      es : es_tag f t d ≡ true
      es = buscar_tag-es_tag f t s.tags {d = d} hd

      paso :
          (s1 : Fs B) × (eliminar_hard_link ext sb b f t i s ≡ some s1)
          × Sigue ext sb s s1 (poner f t (desenlazar i d) s.tags)
      paso = eliminar_hard_link-Sigue ext sb s f t i b d n hd (rw hl (ground arith))

      menos : borrar i d.logicos ≡ enum (i + 1) bs
      menos = rw hl (ground arith)
