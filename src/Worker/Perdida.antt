-- ===== src/Worker/Perdida.antt =====
-- worker/src/memoria.c: leerMemoria takes the mark off a page that is present, also one that was
-- modified.
use trabajo_practico_de_sist.Comun.{
  ℕ, ◌≡◌, ◌⊎◌, inl, inr, refl, subst, List, [], ◌∷◌, ◌++◌, some, false, c_string, All,
}
use trabajo_practico_de_sist.Utils.Estructuras.{Instruccion}
use trabajo_practico_de_sist.Worker.Estado.{
  Memoria, Nodo, Entorno, cambiar_pagina, encontrar_tabla_con_file_tag,
}
use trabajo_practico_de_sist.Worker.Bloques.{respuesta_por_defecto}
use trabajo_practico_de_sist.Worker.Lectura.{leer_memoria}
use trabajo_practico_de_sist.Worker.Persistencia.{persistir_memoria}
use trabajo_practico_de_sist.Worker.Aciertos.{Presente, con_marca}
use trabajo_practico_de_sist.Worker.Relectura.{Acierto, leer_memoria-presente}
use trabajo_practico_de_sist.Worker.Volcado.{
  Limpia, limpiar, limpiar-SoloLimpia, persistir_memoria-nada,
}

-- Every page of the table but the one that is read is unmodified.
abbrev pub SoloEsa :
    {file_tag : List ℕ} {num_pag : ℕ} {m : Memoria} → Presente file_tag num_pag m → Type 0
SoloEsa {m = m} a = All (λ d. (a.direccion ≡ d) ⊎ Limpia m d) a.tabla.paginas

All-map : {P Q : ℕ → Type 0} (l : List ℕ) → ((d : ℕ) → P d → Q d) → All P l → All Q l
All-map [] f h = tt
All-map (d ∷ l) f h = (f d h.0, All-map l f h.1)

leida-limpia :
    {file_tag : List ℕ} {num_pag : ℕ} (m : Memoria) (a : Presente file_tag num_pag m)
    → SoloEsa a
    → All (Limpia (con_marca a false)) a.tabla.paginas
leida-limpia m a h =
    All-map a.tabla.paginas
      (λ d o. elim o [
        | inl i ↦ subst (Limpia (con_marca a false)) i (limpiar m a.direccion a.pagina a.en_heap)
        | inr l ↦ (limpiar-SoloLimpia m a.direccion a.pagina a.en_heap).limpias d l
      ])
      h

-- After a READ of bytes of a page that is present, also a page that had been modified, and when no
-- other page of the table is modified, the persistirMemoria of its file:tag that follows asks nothing
-- of Storage and answers CORRECTO.
pub leer_memoria-persistir :
    {S : Type 0} (ent : Entorno S) (ins : Instruccion) (s : Nodo S) (a : Acierto ins s)
    → SoloEsa a.pagina
    → (s' : Nodo S) × (lectura : List ℕ) × (leer_memoria ent ins s
        ≡ some (s', respuesta_por_defecto, lectura))
      × (persistir_memoria ent ins.query_id (c_string ins.file_tag) s'
          ≡ some (s', respuesta_por_defecto))
      × (s'.almacen ≡ s.almacen)
unfolding cambiar_pagina encontrar_tabla_con_file_tag
leer_memoria-persistir ent ins s a h = (
  record s { memoria = con_marca a.pagina false },
  c_string (a.bytes ++ 0 ∷ []),
  leer_memoria-presente ent ins s a,
  persistir_memoria-nada ent ins.query_id (c_string ins.file_tag)
      (record s { memoria = con_marca a.pagina false }) a.pagina.tabla a.pagina.hallada
      (leida-limpia s.memoria a.pagina h),
  refl,
)
