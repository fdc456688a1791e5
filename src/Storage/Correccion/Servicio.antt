-- ===== src/Storage/Correccion/Servicio.antt =====
-- storage.c, atenderWorker: any sequence of requests.
use trabajo_practico_de_sist.Comun.{
  suc, ◌<◌, ◌≤◌, ◌^◌, ◌≡◌, refl, ap, List, [], ◌∷◌, none, some, false, length, arith, ◌+◌, ◌-◌,
}
use trabajo_practico_de_sist.Utils.Estructuras.{
  Instruccion, CodigoInstruccion, create, truncate, tag, commit, delete, RespuestaStorage,
}
use trabajo_practico_de_sist.Storage.Estado.{Externos, Superblock, Fs}
use trabajo_practico_de_sist.Storage.Verificar.{file_de, tag_de}
use trabajo_practico_de_sist.Storage.Operaciones.Base.{Salida}
use trabajo_practico_de_sist.Storage.Servidor.{
  Servidor, despachar, atender, atender_pedidos, atender_worker,
}
use trabajo_practico_de_sist.Storage.Invariante.Bien.{Bien, es_inicial}
use trabajo_practico_de_sist.Storage.Correccion.Vista.{Resultado}
use trabajo_practico_de_sist.Storage.Correccion.Crear.{create_file-Creado}
use trabajo_practico_de_sist.Storage.Correccion.Truncar.{truncate_file-Truncado}
use trabajo_practico_de_sist.Storage.Correccion.Copiar.{tag_file-Copiado}
use trabajo_practico_de_sist.Storage.Correccion.Borrar.{delete_tag-Borrado}
use trabajo_practico_de_sist.Storage.Correccion.Leer.{read_block-Leido}
use trabajo_practico_de_sist.Storage.Correccion.Comitear.{commit_file-Comiteado}
use trabajo_practico_de_sist.Storage.Correccion.Escritura.{SinHash}
use trabajo_practico_de_sist.Storage.Correccion.Escribir.{write_block-Escrito}

module _ {B : Type 0} (ext : Externos B) (sb : Superblock) where
  -- What a request must be, in the state it meets: a size is not negative, the tag deleted is not
  -- initial_file:BASE, and a write is of a whole block and does not, in place, change the contents
  -- of a block that the index of hashes has.
  abbrev pub Permitido : CodigoInstruccion → Instruccion → Fs B → Type 0
  Permitido truncate ins s = ins.tamanio < 2 ^ 31
  Permitido delete ins s = es_inicial (file_de ins) (tag_de ins) ≡ false
  Permitido CodigoInstruccion.write_block ins s =
      (sb.tam_bloque ≤ length ins.contenido) × SinHash ins s
  Permitido _ ins s = Unit {0}

  abbrev pub Atendido : Salida B → Type 0
  Atendido o = (s' : Fs B) × (r : RespuestaStorage) × (o ≡ some (s', r)) × Bien ext sb s'

  olvidar :
      (ins : Instruccion) (s : Fs B) (o : Salida B) (P : Fs B → RespuestaStorage → Type 0)
      → Resultado ext sb ins s o P
      → Atendido o
  olvidar ins s o P (s', r, e, w, x) = (s', r, e, w)

  despachar-Bien :
      (c : CodigoInstruccion) (ins : Instruccion) (s : Fs B)
      → Bien ext sb s
      → Permitido c ins s
      → Atendido (despachar ext sb c ins s)
  unfolding despachar
  despachar-Bien create ins s w p = olvidar ins s _ _ (create_file-Creado ext sb ins s w)
  despachar-Bien truncate ins s w p = olvidar ins s _ _ (truncate_file-Truncado ext sb ins s w p)
  despachar-Bien tag ins s w p = olvidar ins s _ _ (tag_file-Copiado ext sb ins s w)
  despachar-Bien commit ins s w p = olvidar ins s _ _ (commit_file-Comiteado ext sb ins s w)
  despachar-Bien CodigoInstruccion.write_block ins s w p =
      olvidar ins s _ _ (write_block-Escrito ext sb ins s w p.0 p.1)
  despachar-Bien CodigoInstruccion.read_block ins s w p =
      olvidar ins s _ _ (read_block-Leido ext sb ins s w)
  despachar-Bien delete ins s w p = olvidar ins s _ _ (delete_tag-Borrado ext sb ins s w p)
  despachar-Bien _ ins s w p = (s, _, refl, w)

  -- Every request is permitted in the state in which it is met.
  abbrev pub Permitidos : List Instruccion → Fs B → Type 0
  Permitidos [] s = Unit {0}
  Permitidos (ins ∷ resto) s =
      Permitido ins.codigo_ins ins s
      × (elim (atender ext sb ins s) [ none ↦ Unit {0} | some (s', r) ↦ Permitidos resto s' ])

  atender_pedidos-Bien :
      (pedidos : List Instruccion) (s : Fs B)
      → Bien ext sb s
      → Permitidos pedidos s
      → (s' : Fs B) × (rs : List RespuestaStorage) × (atender_pedidos ext sb pedidos s
          ≡ some (s', rs))
        × Bien ext sb s'
        × (length rs ≡ length pedidos)
  unfolding atender_pedidos atender
  atender_pedidos-Bien [] s w p = (s, [], refl, w, refl)
  atender_pedidos-Bien (ins ∷ resto) s w p =
      let (s1, r, e, w1) = despachar-Bien ins.codigo_ins ins s w p.0 in
      let p1 = rw e at (p.1) in
      let (s2, rs, e2, w2, l) = atender_pedidos-Bien resto s1 w1 p1 in
      (s2, r ∷ rs, rw (e, e2) refl, w2, ap suc l)

  -- A Worker's connection with any number of permitted requests never crashes the Storage: each
  -- request gets one reply, the invariant holds when the Worker leaves, and the count of Workers is
  -- what it was.
  pub atender_worker-Bien :
      (pedidos : List Instruccion) (s : Servidor B)
      → Bien ext sb s.fs
      → Permitidos pedidos s.fs
      → (s' : Servidor B) × (rs : List RespuestaStorage) × (atender_worker ext sb pedidos s
          ≡ some (s', rs))
        × Bien ext sb s'.fs
        × (s'.cantidad_workers ≡ s.cantidad_workers)
        × (length rs ≡ length pedidos)
  unfolding atender_worker
  atender_worker-Bien pedidos s w p =
      let (s', rs, e, w', l) = atender_pedidos-Bien pedidos s.fs w p in
      (
        record { fs = s'; cantidad_workers = s.cantidad_workers + 1 - 1 },
        rs,
        rw e refl,
        w',
        omega arith,
        l,
      )
