-- ===== src/Worker/Numero.antt =====
-- worker/src/memoria.c: encontrarNumeroDePagina looks for a page by its frame.
use trabajo_practico_de_sist.Comun.{
  ℕ, ◌+◌, ◌≡◌, ◌≢◌, refl, ap, ◌∙◌, List, [], ◌∷◌, ◌++◌, some, true, false, arith, ◌==◌,
  if◌then◌else◌, length, get_elem?, All,
}
use trabajo_practico_de_sist.Utils.Estructuras.{menos_uno}
use trabajo_practico_de_sist.Worker.Estado.{Pagina, TablaDePaginas, Memoria}
use trabajo_practico_de_sist.Worker.Victimas.{ultima_con_marco, encontrar_numero_de_pagina}

-- A page of the heap with another frame, or with this one.
abbrev pub EnOtroMarco : List Pagina → ℕ → ℕ → Type 0
EnOtroMarco heap marco d = (p : Pagina) × (get_elem? heap d ≡ some p) × (p.marco ≢ marco)

abbrev pub EnHeap : List Pagina → ℕ → Type 0
EnHeap heap d = (p : Pagina) × (get_elem? heap d ≡ some p)

ultima-resto :
    (heap : List Pagina) (marco indice i : ℕ) (l : List ℕ)
    → All (EnOtroMarco heap marco) l
    → ultima_con_marco heap marco indice i l ≡ some indice
unfolding ultima_con_marco
ultima-resto heap marco indice i [] h = refl
ultima-resto heap marco indice i (d ∷ l) h =
    let n = h.0.2 in
    let e : (h.0.0.marco == marco) ≡ false = ground (arith, n) in
    rw (h.0.1, ultima_con_marco, e) (ultima-resto heap marco indice (i + 1) l h.1)

ultima_lem :
    (heap : List Pagina) (marco : ℕ) (antes : List ℕ) (indice i d : ℕ) (despues : List ℕ)
    (p : Pagina)
    → All (EnHeap heap) antes
    → get_elem? heap d ≡ some p
    → p.marco ≡ marco
    → All (EnOtroMarco heap marco) despues
    → ultima_con_marco heap marco indice i (antes ++ d ∷ despues) ≡ some (i + length antes)
unfolding ultima_con_marco
ultima_lem heap marco [] indice i d despues p h e m k =
    let si : (p.marco == marco) ≡ true = ground (arith, m) in
    rw (e, ultima_con_marco, si)
      (ultima-resto heap marco i (i + 1) despues k ∙ ap some (omega arith))
ultima_lem heap marco (x ∷ antes) indice i d despues p h e m k =
    rw (h.0.1, ultima_con_marco)
      (ultima_lem heap marco antes (if h.0.0.marco == marco then i else indice) (i + 1) d despues p
          h.1 e m k
        ∙ ap some (omega arith))

-- encontrarNumeroDePagina gives the position of the last page of the table that has the frame of
-- the page it looks for, present or not: the number of that page when no later page of the table
-- has its frame, and the number of a later page when one does.
pub encontrar_numero_de_pagina-ultima :
    (m : Memoria) (tabla : TablaDePaginas) (buscada hallada : Pagina) (antes : List ℕ) (d : ℕ)
    (despues : List ℕ)
    → tabla.paginas ≡ antes ++ d ∷ despues
    → All (EnHeap m.paginas) antes
    → get_elem? m.paginas d ≡ some hallada
    → hallada.marco ≡ buscada.marco
    → All (EnOtroMarco m.paginas buscada.marco) despues
    → encontrar_numero_de_pagina tabla buscada m ≡ some (length antes)
unfolding encontrar_numero_de_pagina
encontrar_numero_de_pagina-ultima m tabla buscada hallada antes d despues e h en mismo k =
    ap (ultima_con_marco m.paginas buscada.marco menos_uno 0) e
    ∙ ultima_lem m.paginas buscada.marco antes menos_uno 0 d despues hallada h en mismo k
    ∙ ap some (omega arith)
