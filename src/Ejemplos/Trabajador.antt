-- ===== src/Ejemplos/Trabajador.antt =====
-- A Worker of two frames of two bytes, and a Storage that counts the requests and has two blocks.
use trabajo_practico_de_sist.Comun.{
  some_inj, ℕ, zero, suc, ◌+◌, ◌<◌, ◌≡◌, refl, ap, List, [], ◌∷◌, ◌++◌, some, true, false, ltb,
  if◌then◌else◌, codes, arith, get_elem?, eq_bytes,
}
use trabajo_practico_de_sist.Utils.Estructuras.{
  Instruccion, write, crear_instruccion, correcto, error_limite, crear_respuesta_storage, Query,
  ejecucion_query, duplicar,
}
use trabajo_practico_de_sist.Worker.Estado.{
  clock_m, Pagina, TablaDePaginas, PaginaGlobal, Memoria, Nodo, Entorno, buscar_tabla,
  encontrar_tabla_con_file_tag, tabla_en,
}
use trabajo_practico_de_sist.Worker.Marcos.{leer_rango}
use trabajo_practico_de_sist.Worker.Bloques.{es_acceso}
use trabajo_practico_de_sist.Worker.Ejecucion.{Ejecutor}
use trabajo_practico_de_sist.Worker.Aciertos.{Presente}
use trabajo_practico_de_sist.Worker.IdaYVuelta.{Escribible}
use trabajo_practico_de_sist.Worker.Relectura.{Acierto}
use trabajo_practico_de_sist.Worker.Reloj.{Redonda}
use trabajo_practico_de_sist.Ejemplos.Textos.{partir}

abbrev pub entorno : Entorno ℕ
entorno = record {
  partir = partir;
  pedir = λ ins n. some (
    n + 1,
    crear_respuesta_storage (if ltb ins.nro_bloque 2 then correcto else error_limite) (7 ∷ 8 ∷ [])
        (codes "E"),
  );
}

abbrev pub pagina_cero : Pagina
pagina_cero = record { marco = 0; precencia = true; uso = true; modificada = true }

abbrev pub pagina_uno : Pagina
pagina_uno = record { marco = 0; precencia = false; uso = true; modificada = false }

abbrev pub pagina_dos : Pagina
pagina_dos = record { marco = 1; precencia = true; uso = false; modificada = false }

-- f:t has its pages 0 and 2 in the frames 0 and 1; its page 1 was never brought.
abbrev pub tabla : TablaDePaginas
tabla = record { direccion = 0; file_tag = codes "f:t"; paginas = 0 ∷ 1 ∷ 2 ∷ [] }

abbrev pub memoria : Memoria
memoria = record {
  tam_bloque = 2;
  cant_marcos = 2;
  algoritmo = clock_m;
  bitmap = true ∷ true ∷ false ∷ false ∷ false ∷ false ∷ false ∷ false ∷ [];
  interna = 1 ∷ 2 ∷ 3 ∷ 4 ∷ [];
  tablas = tabla ∷ [];
  proxima_tabla = 1;
  paginas = pagina_cero ∷ pagina_uno ∷ pagina_dos ∷ [];
  tabla_global =
      record { file_tag = codes "f:t"; pagina = 0 }
      ∷ record { file_tag = codes "f:t"; pagina = 2 }
      ∷ [];
  puntero_clock = 0;
}

abbrev pub nodo : Nodo ℕ
nodo = record { memoria = memoria; almacen = 0 }

-- WRITE f:t 0 ab.
abbrev pub escribir_ab : Instruccion
escribir_ab =
    crear_instruccion 7 write (codes "f:t") (codes "f") (codes "t") 2 0 (codes "ab") [] [] 0

-- WRITE of g:t at its block 2, which Storage does not have.
abbrev pub escribir_lejos : Instruccion
escribir_lejos =
    crear_instruccion 7 write (codes "g:t") (codes "g") (codes "t") 2 4 (codes "ab") [] [] 0

abbrev pub consulta : Query
consulta = record {
  id = 7;
  archivo_query = duplicar (codes "q");
  archivo_query_length = 2;
  prioridad = 0;
  pc = 0;
  cod_accion = ejecucion_query;
}

abbrev pub ejecutor : Ejecutor ℕ
ejecutor = record {
  nodo = nodo;
  query_actual = some consulta;
  interrupcion = false;
  sem_query = 1;
  al_master = [];
}

-- CREATE f:t and END.
abbrev pub archivo : List ℕ
archivo = codes "CREATE f:t" ++ 10 ∷ codes "END" ++ 10 ∷ []

pub memoria-Redonda : Redonda memoria
memoria-Redonda = record {
  hay = omega arith;
  entradas = refl;
  puntero = omega arith;
  con_pagina = con_pagina_de;
}
  where
    con_pagina_de :
        (i : ℕ) (g : PaginaGlobal) → get_elem? memoria.tabla_global i ≡ some g → g.pagina < 3
    con_pagina_de zero g e = omega (arith, ap (λ x. x.pagina) (some_inj e))
    con_pagina_de (suc zero) g e = omega (arith, ap (λ x. x.pagina) (some_inj e))
    con_pagina_de (suc (suc i)) g e = absurd (cc e)

unfoldable pub pagina-Presente : Presente (codes "f:t") 0 memoria
unfolding encontrar_tabla_con_file_tag buscar_tabla tabla_en eq_bytes
pagina-Presente = record {
  tabla = tabla;
  hallada = refl;
  viva = refl;
  direccion = 0;
  en_tabla = refl;
  pagina = pagina_cero;
  en_heap = refl;
  presente = refl;
}

unfoldable pub ab-Escribible : Escribible escribir_ab nodo
unfolding es_acceso crear_instruccion pagina-Presente
ab-Escribible = record {
  pagina = pagina-Presente;
  acceso = refl;
  hay = omega arith;
  largo = refl;
  cabe = omega arith;
  entra = omega arith;
}

unfoldable pub ab-Acierto : Acierto escribir_ab nodo
unfolding es_acceso crear_instruccion pagina-Presente leer_rango
ab-Acierto = record {
  pagina = pagina-Presente;
  acceso = refl;
  hay = omega arith;
  cabe = omega arith;
  bytes = 1 ∷ 2 ∷ [];
  en_marco = refl;
}
