-- ===== src/Worker/Escrito.antt =====
-- worker/src/memoria.c: what is written onto a frame is what is read from it, and the other frames
-- keep their bytes.
use trabajo_practico_de_sist.Comun.{
  ℕ, ◌+◌, ◌*◌, ◌≤◌, ◌<◌, ◌≡◌, ◌≢◌, ◌⊎◌, refl, ap, sym, ◌∙◌, inl, inr, List, [], ◌∷◌, some, arith,
  length, drop, ◌>>=◌, take-length,
}
use native.Mathlib.Nat.{mul-le-mul_right}
use trabajo_practico_de_sist.Worker.Estado.{Memoria}
use trabajo_practico_de_sist.Worker.Marcos.{
  en_marco, leer_rango, escribir_contenido_en_marco, leer_contenido_para_storage,
}
use trabajo_practico_de_sist.Worker.Rangos.{
  sobre, length-sobre, poner_rango_lem, leer_rango_lem, leer_rango-sobre, leer_rango-ajeno,
}

-- The position of a byte of a frame.
abbrev pub posicion : Memoria → (marco desplazamiento : ℕ) → ℕ
posicion m marco desplazamiento = marco * m.tam_bloque + desplazamiento

-- The memory with `bytes` on a frame.
abbrev pub con_bytes : Memoria → (marco desplazamiento : ℕ) → List ℕ → Memoria
con_bytes m marco d bytes = record m { interna = sobre m.interna (posicion m marco d) bytes }

pub en_marco_todo : (tam n d : ℕ) → d + n ≤ tam → en_marco tam n d ≡ n
unfolding en_marco
en_marco_todo tam n d h = ground arith

drop-length : (xs : List ℕ) → drop (length xs) xs ≡ []
drop-length [] = refl
drop-length (x ∷ xs) = drop-length xs

pub escribir_contenido_en_marco_lem :
    (c : List ℕ) (marco d : ℕ) (m : Memoria)
    → d + length c ≤ m.tam_bloque
    → posicion m marco d + length c ≤ length m.interna
    → escribir_contenido_en_marco c (length c) marco d m ≡ some ([], 0, con_bytes m marco d c)
unfolding escribir_contenido_en_marco
escribir_contenido_en_marco_lem c marco d m h k =
    rw
      (
        en_marco_todo m.tam_bloque (length c) d h,
        leer_rango_lem c 0 (length c) (omega arith),
        take-length c,
        poner_rango_lem m.interna (posicion m marco d) c k,
        drop-length c,
      )
      (ap (λ n. some ([], n, con_bytes m marco d c)) (omega arith))

pub leer_para_storage_lem :
    (n marco d : ℕ) (m : Memoria)
    → d + n ≤ m.tam_bloque
    → leer_contenido_para_storage n marco d m
      ≡ (do leido ← leer_rango m.interna (posicion m marco d) n; some (0, leido))
unfolding leer_contenido_para_storage
leer_para_storage_lem n marco d m h =
    rw (en_marco_todo m.tam_bloque n d h)
      (ap (λ k. leer_rango m.interna (posicion m marco d) n >>= (λ l. some (k, l))) (ground arith))

-- Two frames do not meet.
marcos-aparte :
    (m : Memoria) (marco otro d n : ℕ)
    → otro < marco
    → d + n ≤ m.tam_bloque
    → posicion m otro d + n ≤ marco * m.tam_bloque
marcos-aparte m marco otro d n h k =
    let e : (otro + 1) * m.tam_bloque ≤ marco * m.tam_bloque =
      mul-le-mul_right m.tam_bloque (omega arith) in
    omega (arith, e, k)

pub otro_marco :
    (c : List ℕ) (marco d : ℕ) (m : Memoria) (otro d' n : ℕ)
    → d + length c ≤ m.tam_bloque
    → posicion m marco d + length c ≤ length m.interna
    → otro ≢ marco
    → d' + n ≤ m.tam_bloque
    → posicion m otro d' + n ≤ length m.interna
    → leer_contenido_para_storage n otro d' (con_bytes m marco d c)
      ≡ leer_contenido_para_storage n otro d' m
otro_marco c marco d m otro d' n h k ne h' k' =
    leer_para_storage_lem n otro d' (con_bytes m marco d c) h'
    ∙ ap (λ o. o >>= (λ l. some (0, l)))
        (leer_rango-ajeno m.interna (posicion m marco d) c (posicion m otro d') n k k'
          (elim (lt_or_gt otro marco ne) [
            | inl lt ↦ inl (omega (arith, marcos-aparte m marco otro d' n lt h'))
            | inr gt ↦ inr (omega (arith, marcos-aparte m otro marco d (length c) gt h))
          ]))
    ∙ sym (leer_para_storage_lem n otro d' m h')
  where
    lt_or_gt : (a b : ℕ) → a ≢ b → (a < b) ⊎ (b < a)
    lt_or_gt a b ne' = ground arith

-- Contents that fit in a frame from `desplazamiento` on are written whole: nothing is left of them,
-- a read of as many bytes of that place gives them back, any other frame reads as before, and the
-- memory keeps its size.
pub escribir_contenido_en_marco-leer :
    (c : List ℕ) (marco d : ℕ) (m : Memoria) (otro d' n : ℕ)
    → d + length c ≤ m.tam_bloque
    → posicion m marco d + length c ≤ length m.interna
    → otro ≢ marco
    → d' + n ≤ m.tam_bloque
    → posicion m otro d' + n ≤ length m.interna
    → (m' : Memoria) × (escribir_contenido_en_marco c (length c) marco d m ≡ some ([], 0, m'))
      × (leer_contenido_para_storage (length c) marco d m' ≡ some (0, c))
      × (leer_contenido_para_storage n otro d' m' ≡ leer_contenido_para_storage n otro d' m)
      × (length m'.interna ≡ length m.interna)
escribir_contenido_en_marco-leer c marco d m otro d' n h k ne h' k' = (
  con_bytes m marco d c,
  escribir_contenido_en_marco_lem c marco d m h k,
  leer_para_storage_lem (length c) marco d (con_bytes m marco d c) h
      ∙ ap (λ o. o >>= (λ l. some (0, l))) (leer_rango-sobre m.interna (posicion m marco d) c k),
  otro_marco c marco d m otro d' n h k ne h' k',
  length-sobre m.interna (posicion m marco d) c k,
)
