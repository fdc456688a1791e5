-- ===== src/Ejemplos/Disco.antt =====
-- A disk of four blocks of two bytes: initial_file:BASE, and a:t in progress with two blocks.
use trabajo_practico_de_sist.Comun.{
  ℕ, ◌*◌, ◌≡◌, refl, List, [], ◌∷◌, none, some, Bool, true, false, ◌==◌, if◌then◌else◌, codes,
  arith, inl, inr, Bool-cases, eq_bytes, length,
}
use trabajo_practico_de_sist.Utils.Estructuras.{Instruccion, CodigoInstruccion}
use trabajo_practico_de_sist.Storage.Estado.{
  Externos, Superblock, work_in_progress, commited, DirTag, Fs, buscar_tag, contiene,
}
use trabajo_practico_de_sist.Storage.Enlaces.{cuenta, refs}
use trabajo_practico_de_sist.Storage.Invariante.Bien.{Bien, dir_base}

abbrev pub Mapa : Type 0
Mapa = ℕ × (ℕ → Bool)

abbrev pub externos : Externos Mapa
externos = record {
  crear = λ bytes. (8 * bytes, λ i. false);
  max_bit = λ m. m.0;
  test = λ m i. m.1 i;
  set_bit = λ m i. (m.0, λ j. if i == j then true else m.1 j);
  clean_bit = λ m i. (m.0, λ j. if i == j then false else m.1 j);
  md5 = λ c. c;
  max_bit-crear = λ bytes. refl;
  max_bit-set_bit = λ m i. refl;
  max_bit-clean_bit = λ m i. refl;
  test-set_bit = λ m i j h. refl;
  test-clean_bit = λ m i j h. refl;
}

abbrev pub superblock : Superblock
superblock = record { tam_bloque = 2; tam_fs = 8; cantidad_bloques = 4 }

abbrev pub pedido : CodigoInstruccion → List ℕ → ℕ → ℕ → List ℕ → Instruccion
pedido codigo archivo tamanio nro contenido = record {
  query_id = 0;
  codigo_ins = codigo;
  file_tag_length = 0;
  file_tag = [];
  nombre_file_length = 2;
  nombre_file = archivo;
  tag_length = 2;
  tag = codes "t";
  tamanio = tamanio;
  direccion_base = 0;
  contenido_length = length contenido;
  contenido = contenido;
  nombre_file_destino_length = 2;
  nombre_file_destino = codes "a";
  tag_destino_length = 2;
  tag_destino = codes "u";
  nro_bloque = nro;
}

abbrev pub dir_a : DirTag
dir_a = record {
  file = codes "a";
  nombre = codes "t";
  metadata = some (record { tamanio = 4; bloques = 0 ∷ 1 ∷ []; estado = work_in_progress });
  logicos = (0, 0) ∷ (1, 1) ∷ [];
}

abbrev pub disco : Fs Mapa
disco = record {
  bitmap = (8, λ i. if i == 0 then true else i == 1);
  indice = λ h. none;
  fisicos = λ b. if b == 0 then some (0 ∷ 0 ∷ []) else if b == 1 then some (5 ∷ 6 ∷ []) else none;
  dirs = codes "a" ∷ (codes "initial_file" ∷ []);
  tags = dir_a ∷ dir_base superblock ∷ [];
}

refs-disco : (b : ℕ) → refs b disco.tags ≡ (if b == 0 then 2 else if b == 1 then 1 else 0)
unfolding refs cuenta
refs-disco b = ground arith

pub disco-Bien : Bien externos superblock disco
unfolding buscar_tag contiene eq_bytes
disco-Bien = record {
  nucleo = record {
    ocupados = λ b lt. ground (arith, refs-disco b);
    enlazados = λ b pos. elim (Bool-cases (b == 0)) [
      | inl cero ↦ let e : b ≡ 0 = ground arith in rw e (omega arith, (0 ∷ 0 ∷ [], refl, refl))
      | inr no' ↦
          let e : b ≡ 1 = ground (arith, refs-disco b) in
          rw e (omega arith, (5 ∷ 6 ∷ [], refl, refl))
    ];
    indice = λ h b q. absurd (ground arith);
  };
  tags = (
    record {
      meta = record { tamanio = 4; bloques = 0 ∷ 1 ∷ []; estado = work_in_progress };
      tiene = refl;
      enlaces = refl;
    },
    (
      record {
        meta = record { tamanio = 2; bloques = 0 ∷ []; estado = commited };
        tiene = refl;
        enlaces = refl;
      },
      tt,
    ),
  );
  unicos = (refl, (refl, tt));
  archivos = (refl, (refl, tt));
  inicial = refl;
  ceros = refl;
}
