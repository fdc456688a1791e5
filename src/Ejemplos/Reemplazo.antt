-- ===== src/Ejemplos/Reemplazo.antt =====
-- A replacement in the small Worker: its two frames are taken.
use trabajo_practico_de_sist.Comun.{
  set, get_elem?, ℕ, ◌≡◌, ◌⊎◌, refl, [], ◌∷◌, some, none, true, false, arith, codes, eq_bytes, All,
}
use trabajo_practico_de_sist.Utils.Estructuras.{
  RespuestaStorage, crear_instruccion, crear_respuesta_storage, RespuestaQuery, desalojo_query,
  fin_query,
}
use trabajo_practico_de_sist.Worker.Estado.{
  Memoria, Nodo, Pagina, encontrar_tabla_con_file_tag, buscar_tabla,
}
use trabajo_practico_de_sist.Worker.Victimas.{asignar_marco}
use trabajo_practico_de_sist.Worker.Paginas.{agregar_a_tabla_global}
use trabajo_practico_de_sist.Worker.Marcado.{Marcado}
use trabajo_practico_de_sist.Worker.Libres.{Libre}
use trabajo_practico_de_sist.Worker.MarcoLibre.{asignar_marco-Libre}
use trabajo_practico_de_sist.Worker.MarcoTomado.{con_entrada, agregar_a_tabla_global-Marcado}
use trabajo_practico_de_sist.Ejemplos.Trabajador.{
  entorno, memoria, nodo, tabla, pagina_cero, pagina_uno, pagina_dos, escribir_ab, ejecutor,
}
use trabajo_practico_de_sist.Worker.Interprete.{desalojar}
use trabajo_practico_de_sist.Worker.Ejecucion.{Ejecutor}
use trabajo_practico_de_sist.Worker.Desalojo.{Persistida, desalojar-Persistida}
use trabajo_practico_de_sist.Worker.Devuelve.{Atiende, Contestada, persistir_memoria-devuelve}
use trabajo_practico_de_sist.Worker.Volcado.{Limpia}
use trabajo_practico_de_sist.Worker.Persistencia.{persistir_memoria}
use trabajo_practico_de_sist.Worker.Bloques.{es_correcto}

hallada : encontrar_tabla_con_file_tag (codes "f:t") memoria ≡ some tabla
unfolding encontrar_tabla_con_file_tag buscar_tabla eq_bytes
hallada = refl

memoria-Marcado : Marcado memoria
memoria-Marcado = record {
  ocupados = ((0, refl, omega arith, refl), ((1, refl, omega arith, refl), tt));
  distintos = (((λ e. absurd (cc e)), tt), (tt, tt));
}

-- The frame that the replacement gives, and the state after it.
reemplazo : ℕ × Nodo ℕ
unfolding asignar_marco
reemplazo = elim (asignar_marco entorno 7 nodo) [ none ↦ (9, nodo) | some x ↦ x ]

se_reemplaza : asignar_marco entorno 7 nodo ≡ some (reemplazo.0, reemplazo.1)
unfolding asignar_marco reemplazo encontrar_tabla_con_file_tag eq_bytes crear_instruccion
    crear_respuesta_storage
se_reemplaza = refl

asignar_marco-Libre_example : Libre reemplazo.1.memoria reemplazo.0
asignar_marco-Libre_example =
    asignar_marco-Libre entorno 7 reemplazo.0 nodo reemplazo.1 memoria-Marcado se_reemplaza

-- The memory with only the page 0 in tablaPagGlobal, and a page with the frame 1 to enter.
abbrev nueva : Pagina
nueva = record { marco = 1; precencia = true; uso = true; modificada = false }

abbrev por_entrar : Memoria
por_entrar = record memoria {
  bitmap = true ∷ false ∷ false ∷ false ∷ false ∷ false ∷ false ∷ false ∷ [];
  paginas = record { marco = 0; precencia = true; uso = true; modificada = true } ∷ nueva ∷ [];
  tabla_global = record { file_tag = codes "f:t"; pagina = 0 } ∷ [];
}

por_entrar-Libre : Libre por_entrar 1
por_entrar-Libre = record {
  marcado = record { ocupados = ((0, refl, omega arith, refl), tt); distintos = (tt, tt) };
  entra = omega arith;
  de_nadie = ((λ e. absurd (cc e)), tt);
}

adentro : Memoria
unfolding agregar_a_tabla_global
adentro = elim (agregar_a_tabla_global 1 (codes "f:t") por_entrar) [ none ↦ memoria | some m ↦ m ]

entra : agregar_a_tabla_global 1 (codes "f:t") por_entrar ≡ some adentro
unfolding agregar_a_tabla_global adentro
entra = refl

agregar_a_tabla_global-Marcado_example :
    (adentro.tabla_global
      ≡ con_entrada por_entrar.tabla_global 1 (record { file_tag = codes "f:t"; pagina = 1 }))
    × (adentro.bitmap ≡ set por_entrar.bitmap 1 true)
    × (get_elem? adentro.bitmap 1 ≡ some true)
    × Marcado adentro
agregar_a_tabla_global-Marcado_example =
    agregar_a_tabla_global-Marcado 1 (codes "f:t") nueva por_entrar adentro por_entrar-Libre refl
      (omega arith) (λ e. absurd (cc e)) (omega arith) entra

atiende : Atiende entorno
atiende ins a = (_, refl)

persistir_memoria-devuelve_example :
    (s' : Nodo ℕ) × (r : RespuestaStorage) × (persistir_memoria entorno 7 (codes "f:t") nodo
      ≡ some (s', r))
    × (((es_correcto r.cod_respuesta ≡ true) × All (Limpia s'.memoria) tabla.paginas)
        ⊎ ((es_correcto r.cod_respuesta ≡ false) × Contestada entorno s' r))
persistir_memoria-devuelve_example =
    persistir_memoria-devuelve entorno 7 atiende (codes "f:t") nodo tabla hallada
      (codes "f", codes "t", [], refl)
      (
        (pagina_cero, refl, omega arith),
        ((pagina_uno, refl, omega arith), ((pagina_dos, refl, omega arith), tt)),
      )

desalojado : Ejecutor ℕ
unfolding desalojar
desalojado = elim (desalojar entorno 7 0 escribir_ab ejecutor) [ none ↦ ejecutor | some e ↦ e ]

se_desaloja : desalojar entorno 7 0 escribir_ab ejecutor ≡ some desalojado
unfolding desalojar desalojado encontrar_tabla_con_file_tag eq_bytes crear_instruccion
    crear_respuesta_storage
se_desaloja = refl

desalojar-Persistida_example :
    (r : RespuestaQuery) × (desalojado.al_master ≡ r ∷ [])
    × (((r.cod_respuesta ≡ desalojo_query)
          × (r.pc ≡ 1)
          × All (Persistida desalojado.nodo.memoria) (tabla ∷ []))
        ⊎ (r.cod_respuesta ≡ fin_query))
desalojar-Persistida_example =
    desalojar-Persistida entorno 7 0 escribir_ab ejecutor desalojado (hallada, tt) se_desaloja
