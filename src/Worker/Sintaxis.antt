-- ===== src/Worker/Sintaxis.antt =====
-- worker/src/ejecucion.c: interpretarInstruccion reads the instructions that a query's file spells.
use trabajo_practico_de_sist.Comun.{
  ℕ, ◌^◌, ◌<◌, ◌≡◌, ◌≢◌, refl, ◌∙◌, List, [], ◌∷◌, ◌++◌, some, Bool, true, false, not, ◌&&◌, ◌==◌,
  eq_bytes, arith, All, codes,
}
use trabajo_practico_de_sist.Utils.Estructuras.{
  Instruccion, create, truncate, tag, commit, flush, delete, end, read, write, crear_instruccion,
}
use trabajo_practico_de_sist.Utils.Separados.{
  unir, Palabra, Separa, Decimal, digitos-Palabra, All-append,
}
use trabajo_practico_de_sist.Worker.Instrucciones.{
  obtener_codigo_operacion, instruccion_sobre, leer_parametros, segun_codigo,
  interpretar_instruccion,
}

-- What a line of a query's file says; a file and its tag come first.
pub data Orden : Type 0 where
  crear comitear volcar borrar : (file etiqueta : List ℕ) → Orden
  truncar : (file etiqueta : List ℕ) (tamanio : ℕ) → Orden
  escribir : (file etiqueta : List ℕ) (base : ℕ) (contenido : List ℕ) → Orden
  leer : (file etiqueta : List ℕ) (base tamanio : ℕ) → Orden
  etiquetar : (file etiqueta destino tag_destino : List ℕ) → Orden
  terminar : Orden

abbrev pub con_dos_puntos : List ℕ → List ℕ → List ℕ
con_dos_puntos file etiqueta = file ++ 58 ∷ etiqueta

-- The words of its line, the first one apart.
abbrev pub palabras : (ℕ → List ℕ) → Orden → List (List ℕ)
palabras itoa (crear f t) = codes "CREATE" ∷ con_dos_puntos f t ∷ []
palabras itoa (comitear f t) = codes "COMMIT" ∷ con_dos_puntos f t ∷ []
palabras itoa (volcar f t) = codes "FLUSH" ∷ con_dos_puntos f t ∷ []
palabras itoa (borrar f t) = codes "DELETE" ∷ con_dos_puntos f t ∷ []
palabras itoa (truncar f t n) = codes "TRUNCATE" ∷ con_dos_puntos f t ∷ itoa n ∷ []
palabras itoa (escribir f t b c) = codes "WRITE" ∷ con_dos_puntos f t ∷ itoa b ∷ c ∷ []
palabras itoa (leer f t b n) = codes "READ" ∷ con_dos_puntos f t ∷ itoa b ∷ itoa n ∷ []
palabras itoa (etiquetar f t g u) = codes "TAG" ∷ con_dos_puntos f t ∷ con_dos_puntos g u ∷ []
palabras itoa terminar = codes "END" ∷ []

abbrev pub texto : (ℕ → List ℕ) → Orden → List ℕ
texto itoa o = unir 32 (palabras itoa o)

-- The instruction that the Worker makes of it.
abbrev pub instruccion_de : ℕ → Orden → Instruccion
instruccion_de id (crear f t) =
    crear_instruccion id create (con_dos_puntos f t) f t 0 0 (0 ∷ []) [] [] 0
instruccion_de id (comitear f t) =
    crear_instruccion id commit (con_dos_puntos f t) f t 0 0 (0 ∷ []) [] [] 0
instruccion_de id (volcar f t) =
    crear_instruccion id flush (con_dos_puntos f t) f t 0 0 (0 ∷ []) [] [] 0
instruccion_de id (borrar f t) =
    crear_instruccion id delete (con_dos_puntos f t) f t 0 0 (0 ∷ []) [] [] 0
instruccion_de id (truncar f t n) =
    crear_instruccion id truncate (con_dos_puntos f t) f t n 0 (0 ∷ []) [] [] 0
instruccion_de id (escribir f t b c) =
    crear_instruccion id write (con_dos_puntos f t) f t 0 b c [] [] 0
instruccion_de id (leer f t b n) =
    crear_instruccion id read (con_dos_puntos f t) f t n b (0 ∷ []) [] [] 0
instruccion_de id (etiquetar f t g u) =
    crear_instruccion id tag (con_dos_puntos f t) f t 0 0 (0 ∷ []) g u 0
instruccion_de id terminar = crear_instruccion id end [] [] [] 0 0 (0 ∷ []) [] [] 0

-- A name: neither a space nor a colon is in it.
abbrev pub Nombre : List ℕ → Type 0
Nombre w = Palabra 32 w × Palabra 58 w

abbrev pub Legible : Orden → Type 0
Legible (crear f t) = Nombre f × Nombre t
Legible (comitear f t) = Nombre f × Nombre t
Legible (volcar f t) = Nombre f × Nombre t
Legible (borrar f t) = Nombre f × Nombre t
Legible (truncar f t n) = Nombre f × Nombre t × (n < 2 ^ 31)
Legible (escribir f t b c) = Nombre f × Nombre t × (b < 2 ^ 31) × Palabra 32 c
Legible (leer f t b n) = Nombre f × Nombre t × (b < 2 ^ 31) × (n < 2 ^ 31)
Legible (etiquetar f t g u) = Nombre f × Nombre t × Nombre g × Nombre u
Legible terminar = Unit

dos_puntos-Palabra : (f t : List ℕ) → Nombre f → Nombre t → Palabra 32 (con_dos_puntos f t)
dos_puntos-Palabra f t h k = (
  no_vacia f h.0.0,
  All-append (λ b. b ≢ 32) f (58 ∷ t) h.0.1 ((λ e. absurd (omega (arith, e))), k.0.1),
)
  where
    no_vacia : (w : List ℕ) → w ≢ [] → w ++ 58 ∷ t ≢ []
    no_vacia [] n e = n refl
    no_vacia (x ∷ w) n e = absurd (cc e)

module _ (partir : List ℕ → ℕ → List (List ℕ)) (separa : Separa partir) where
  partes :
      (w : List ℕ) (ws : List (List ℕ)) (id : ℕ)
      → All (Palabra 32) (w ∷ ws)
      → interpretar_instruccion partir (unir 32 (w ∷ ws)) id
        ≡ segun_codigo partir (obtener_codigo_operacion w) (w ∷ ws) id
  unfolding interpretar_instruccion
  partes w ws id h = rw (separa 32 w ws h) refl

  dos_partes : (f t : List ℕ) → Nombre f → Nombre t → partir (con_dos_puntos f t) 58 ≡ f ∷ t ∷ []
  dos_partes f t h k = separa 58 f (t ∷ []) (h.1, (k.1, tt))

  parametros :
      (w f t : List ℕ) (ws : List (List ℕ))
      → Nombre f
      → Nombre t
      → leer_parametros partir (w ∷ con_dos_puntos f t ∷ ws)
        ≡ some (record { file_tag = con_dos_puntos f t; file = f; etiqueta = t })
  unfolding leer_parametros
  parametros w f t ws h k = rw (dos_partes f t h k) refl

sin : ℕ → List ℕ → Bool
sin sep [] = true
sin sep (b ∷ bs) = not (b == sep) && sin sep bs

sin-All : (sep : ℕ) (w : List ℕ) → sin sep w ≡ true → All (λ b. b ≢ sep) w
unfolding sin
sin-All sep [] h = tt
sin-All sep (b ∷ bs) h = (ground (arith, h), sin-All sep bs (ground (arith, h)))

es_clave : List ℕ → Bool
unfolding sin
es_clave [] = false
es_clave (b ∷ bs) = sin 32 (b ∷ bs)

clave : (w : List ℕ) → es_clave w ≡ true → Palabra 32 w
unfolding es_clave
clave [] h = absurd (cc h)
clave (b ∷ bs) h = ((λ e. absurd (cc e)), sin-All 32 (b ∷ bs) h)

module _ (partir : List ℕ → ℕ → List (List ℕ)) (itoa : ℕ → List ℕ) (separa : Separa partir)
    (decimal : Decimal itoa) where
  numero : (n : ℕ) → n < 2 ^ 31 → Palabra 32 (itoa n)
  numero n h = digitos-Palabra 32 n itoa decimal (omega arith) h

  -- A line that starts with a keyword and a file:tag.
  linea :
      (w f t : List ℕ) (ws : List (List ℕ)) (id : ℕ)
      → es_clave w ≡ true
      → Nombre f
      → Nombre t
      → All (Palabra 32) ws
      → interpretar_instruccion partir (unir 32 (w ∷ con_dos_puntos f t ∷ ws)) id
        ≡ segun_codigo partir (obtener_codigo_operacion w) (w ∷ con_dos_puntos f t ∷ ws) id
  linea w f t ws id e h k l =
      partes partir separa w (con_dos_puntos f t ∷ ws) id
        (clave w e, (dos_puntos-Palabra f t h k, l))

  -- A line with the words of an order, which has names with no space and no colon, numbers below
  -- 2 ^ 31 and contents that are one word, is interpreted as that order: of its instruction, the
  -- code, the file:tag, the file, the tag, the size, the base, the contents and the destination are
  -- those of the order. string_split gives back joined words and string_itoa writes decimals.
  pub interpretar_instruccion-texto :
      (id : ℕ) (o : Orden)
      → Legible o
      → interpretar_instruccion partir (texto itoa o) id ≡ some (instruccion_de id o)
  unfolding segun_codigo obtener_codigo_operacion instruccion_sobre es_clave eq_bytes
      crear_instruccion
  interpretar_instruccion-texto id (crear f t) h =
      linea (codes "CREATE") f t [] id refl h.0 h.1 tt
      ∙ rw (parametros partir separa (codes "CREATE") f t [] h.0 h.1) refl
  interpretar_instruccion-texto id (comitear f t) h =
      linea (codes "COMMIT") f t [] id refl h.0 h.1 tt
      ∙ rw (parametros partir separa (codes "COMMIT") f t [] h.0 h.1) refl
  interpretar_instruccion-texto id (volcar f t) h =
      linea (codes "FLUSH") f t [] id refl h.0 h.1 tt
      ∙ rw (parametros partir separa (codes "FLUSH") f t [] h.0 h.1) refl
  interpretar_instruccion-texto id (borrar f t) h =
      linea (codes "DELETE") f t [] id refl h.0 h.1 tt
      ∙ rw (parametros partir separa (codes "DELETE") f t [] h.0 h.1) refl
  interpretar_instruccion-texto id (truncar f t n) h =
      linea (codes "TRUNCATE") f t (itoa n ∷ []) id refl h.0 h.1 (numero n h.2, tt)
      ∙ rw
          (
            parametros partir separa (codes "TRUNCATE") f t (itoa n ∷ []) h.0 h.1,
            decimal.valor n h.2,
          )
          refl
  interpretar_instruccion-texto id (escribir f t b c) h =
      linea (codes "WRITE") f t (itoa b ∷ c ∷ []) id refl h.0 h.1 (numero b h.2, (h.3, tt))
      ∙ rw
          (
            parametros partir separa (codes "WRITE") f t (itoa b ∷ c ∷ []) h.0 h.1,
            decimal.valor b h.2,
          )
          refl
  interpretar_instruccion-texto id (leer f t b n) h =
      linea (codes "READ") f t (itoa b ∷ itoa n ∷ []) id refl h.0 h.1
        (numero b h.2, (numero n h.3, tt))
      ∙ rw
          (
            parametros partir separa (codes "READ") f t (itoa b ∷ itoa n ∷ []) h.0 h.1,
            decimal.valor b h.2,
            decimal.valor n h.3,
          )
          refl
  interpretar_instruccion-texto id (etiquetar f t g u) h =
      linea (codes "TAG") f t (con_dos_puntos g u ∷ []) id refl h.0 h.1
        (dos_puntos-Palabra g u h.2 h.3, tt)
      ∙ rw
          (
            parametros partir separa (codes "TAG") f t (con_dos_puntos g u ∷ []) h.0 h.1,
            dos_partes partir separa g u h.2 h.3,
          )
          refl
  interpretar_instruccion-texto id terminar h =
      partes partir separa (codes "END") [] id (clave (codes "END") refl, tt)
