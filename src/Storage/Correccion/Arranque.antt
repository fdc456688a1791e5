-- ===== src/Storage/Correccion/Arranque.antt =====
-- storage.c, iniciarFileSystem: the fresh file system.
use trabajo_practico_de_sist.Comun.{
  ℕ, zero, suc, ◌+◌, ◌*◌, ◌/◌, ◌<◌, ◌≤◌, ◌≡◌, ◌⊎◌, refl, ap, ◌∙◌, List, [], ◌∷◌, none, some, false,
  length-replicate, take, take-length, replicate, arith, inl, inr, ◌==◌, if◌then◌else◌, Bool-cases,
  eq_bytes, eq_bytes_sound, subst,
}
use trabajo_practico_de_sist.Storage.Estado.{
  Externos, Superblock, commited, Fs, buscar_tag, modificar_tag, contiene,
}
use trabajo_practico_de_sist.Storage.Enlaces.{insertar, cuenta, refs}
use trabajo_practico_de_sist.Storage.Bloques.{con_indice, agregar_hard_link}
use trabajo_practico_de_sist.Storage.Inicio.{
  initial_file, crear_physical_blocks, limpiar, crear_bitmap, vacio, iniciar_file_system,
}
use trabajo_practico_de_sist.Storage.Invariante.Bien.{Bien, dir_base}

module _ {B : Type 0} (ext : Externos B) (sb : Superblock) where
  limpiar-max_bit : (n i : ℕ) (m : B) → ext.max_bit (limpiar ext sb n i m) ≡ ext.max_bit m
  unfolding limpiar
  limpiar-max_bit zero i m = refl
  limpiar-max_bit (suc n) i m =
      limpiar-max_bit n (i + 1) (ext.clean_bit m i) ∙ ext.max_bit-clean_bit m i

  -- The loop cleans the bits from `i` to i + n - 1, and keeps clear what was clear.
  limpiar-test :
      (n i : ℕ) (m : B) (j : ℕ)
      → i + n ≤ ext.max_bit m
      → ((j < i + n) × (i ≤ j)) ⊎ (ext.test m j ≡ false)
      → ext.test (limpiar ext sb n i m) j ≡ false
  unfolding limpiar
  limpiar-test zero i m j h (inl (lt, le)) = absurd (omega arith)
  limpiar-test zero i m j h (inr e) = e
  limpiar-test (suc n) i m j h c =
      limpiar-test n (i + 1) (ext.clean_bit m i) j (rw (ext.max_bit-clean_bit m i) (omega arith))
        (elim (Bool-cases (i == j)) [
          | inl si ↦ inr (rw (ext.test-clean_bit m i j (omega arith), si) refl)
          | inr no' ↦ elim c [
            | inl (lt, le) ↦ inl (omega arith, ground arith)
            | inr e ↦ inr (rw (ext.test-clean_bit m i j (omega arith), no') e)
          ]
        ])

  crear_bitmap-max_bit : ext.max_bit (crear_bitmap ext sb) ≡ 8 * ((sb.cantidad_bloques + 7) / 8)
  unfolding crear_bitmap
  crear_bitmap-max_bit =
      let m = ext.crear ((sb.cantidad_bloques + 7) / 8) in
      limpiar-max_bit (ext.max_bit m) 0 m ∙ ext.max_bit-crear ((sb.cantidad_bloques + 7) / 8)

  crear_bitmap-test :
      (j : ℕ) → j < ext.max_bit (crear_bitmap ext sb) → ext.test (crear_bitmap ext sb) j ≡ false
  unfolding crear_bitmap
  crear_bitmap-test j h =
      let m = ext.crear ((sb.cantidad_bloques + 7) / 8) in
      limpiar-test (ext.max_bit m) 0 m j (omega arith)
        (inl (omega (arith, limpiar-max_bit (ext.max_bit m) 0 m, h), omega arith))

  bloque_cero :
      (n : ℕ) → 0 < n → crear_physical_blocks sb.tam_bloque n 0 ≡ some (replicate sb.tam_bloque 0)
  unfolding crear_physical_blocks
  bloque_cero zero h = absurd (omega arith)
  bloque_cero (suc zero) h = refl
  bloque_cero (suc (suc n)) h = ground (arith, bloque_cero (suc n))

  -- The file system after a fresh start.
  inicial : Fs B
  inicial = record {
    bitmap = ext.set_bit (crear_bitmap ext sb) 0;
    indice = con_indice (ext.md5 (replicate sb.tam_bloque 0)) (some 0) (λ h. none);
    fisicos = crear_physical_blocks sb.tam_bloque sb.cantidad_bloques;
    dirs = initial_file ∷ [];
    tags = dir_base sb ∷ [];
  }

  refs-inicial : (b : ℕ) → refs b (dir_base sb ∷ []) ≡ (if b == 0 then 1 else 0)
  unfolding refs cuenta
  refs-inicial b = ground arith

  ceros_de : List ℕ
  ceros_de = replicate sb.tam_bloque 0

  toma : take sb.tam_bloque ceros_de ≡ ceros_de
  unfolding ceros_de
  toma =
      subst (λ n. take n ceros_de ≡ ceros_de) (length-replicate sb.tam_bloque 0)
        (take-length ceros_de)

  inicial-Bien : 0 < sb.cantidad_bloques → Bien ext sb inicial
  unfolding inicial ceros_de buscar_tag contiene eq_bytes
  inicial-Bien h = record {
    nucleo = record {
      ocupados = λ b lt. ground (
        arith,
        refs-inicial b,
        ext.test-set_bit (crear_bitmap ext sb) 0 b,
        crear_bitmap-test b,
        ext.max_bit-set_bit (crear_bitmap ext sb) 0,
        hay,
      );
      enlazados = λ b pos.
          let b≡0 : b ≡ 0 = ground (arith, refs-inicial b) in
          rw b≡0 (
            omega (arith, hay, ext.max_bit-set_bit (crear_bitmap ext sb) 0),
            (
              replicate sb.tam_bloque 0,
              bloque_cero sb.cantidad_bloques h,
              length-replicate sb.tam_bloque 0,
            ),
          );
      indice = λ k b q. elim (Bool-cases (eq_bytes (ext.md5 (replicate sb.tam_bloque 0)) k)) [
        | inr no' ↦ absurd (ground arith)
        | inl si ↦
            let b≡0 : 0 ≡ b = ground arith in
            rw (← b≡0) (
              omega (arith, uno_cero),
              (
                replicate sb.tam_bloque 0,
                bloque_cero sb.cantidad_bloques h,
                ap ext.md5 toma ∙ eq_bytes_sound _ _ si,
              ),
            )
      ];
    };
    tags = (
      record {
        meta = record { tamanio = sb.tam_bloque; bloques = 0 ∷ []; estado = commited };
        tiene = refl;
        enlaces = refl;
      },
      tt,
    );
    unicos = (refl, tt);
    archivos = (refl, tt);
    inicial = refl;
    ceros = bloque_cero sb.cantidad_bloques h;
  }
    where
      uno_cero : refs 0 (dir_base sb ∷ []) ≡ 1
      uno_cero = refs-inicial 0

      hay : 0 < ext.max_bit (crear_bitmap ext sb)
      hay = rw crear_bitmap-max_bit (omega arith)

  -- A fresh start with at least one block ends, and makes a file system that keeps the invariant.
  pub iniciar_file_system-Bien :
      0 < sb.cantidad_bloques → (s : Fs B) × (iniciar_file_system ext sb ≡ some s) × Bien ext sb s
  unfolding iniciar_file_system inicial ceros_de modificar_tag insertar eq_bytes
  iniciar_file_system-Bien h = (
    inicial,
    rw
        (
          agregar_hard_link,
          bloque_cero sb.cantidad_bloques h,
          vacio,
          bloque_cero sb.cantidad_bloques h,
          toma,
        )
        refl,
    inicial-Bien h,
  )
