-- ===== src/Storage/Servidor.antt =====
-- storage/src/storage.c: atenderWorker, from a Worker's connection to its disconnection.
use trabajo_practico_de_sist.Comun.{
  ℕ, ◌+◌, ◌-◌, List, [], ◌∷◌, Option, none, some, ◌==◌, if◌then◌else◌, ◌>>=◌,
}
use trabajo_practico_de_sist.Utils.Estructuras.{
  Instruccion, CodigoInstruccion, create, truncate, tag, commit, delete, error_prohibido,
  RespuestaStorage, menos_uno,
}
use trabajo_practico_de_sist.Storage.Estado.{Externos, Superblock, Fs}
use trabajo_practico_de_sist.Storage.Operaciones.Base.{Salida, responder}
use trabajo_practico_de_sist.Storage.Operaciones.Archivos.{
  create_file, truncate_file, tag_file, delete_tag,
}
use trabajo_practico_de_sist.Storage.Operaciones.Commit.{commit_file}
use trabajo_practico_de_sist.Storage.Operaciones.Contenido.{write_block, read_block}

pub record Servidor (B : Type 0) : Type 0 where
  pub fs : Fs B
  pub cantidad_workers : ℕ

unfoldable pub sumar_worker : {B : Type 0} → Servidor B → Servidor B
sumar_worker s = record s { cantidad_workers = s.cantidad_workers + 1 }

unfoldable pub restar_worker : {B : Type 0} → Servidor B → Servidor B
restar_worker s = record s { cantidad_workers = s.cantidad_workers - 1 }

-- The block size that a Worker is sent, -1 if its packet was no handshake (HANDSHAKE_WORKER_STORAGE
-- is 4).
unfoldable pub handshake_con_worker : Superblock → ℕ → ℕ
handshake_con_worker sb codigo_operacion =
    if codigo_operacion == 4 then sb.tam_bloque else menos_uno

module _ {B : Type 0} (ext : Externos B) (sb : Superblock) where
  -- The switch on codigoIns.
  unfoldable pub despachar : CodigoInstruccion → Instruccion → Fs B → Salida B
  despachar create ins s = create_file ext sb ins s
  despachar truncate ins s = truncate_file ext sb ins s
  despachar tag ins s = tag_file ext sb ins s
  despachar commit ins s = commit_file ext sb ins s
  despachar CodigoInstruccion.write_block ins s = write_block ext sb ins s
  despachar CodigoInstruccion.read_block ins s = read_block ext sb ins s
  despachar delete ins s = delete_tag ext sb ins s
  despachar _ ins s = responder sb error_prohibido none [] s

  unfoldable pub atender : Instruccion → Fs B → Salida B
  unfolding despachar
  atender ins s = despachar ins.codigo_ins ins s

  -- The requests received before the disconnection, in order, and the replies sent.
  unfoldable pub atender_pedidos : List Instruccion → Fs B → Option (Fs B × List RespuestaStorage)
  atender_pedidos [] s = some (s, [])
  atender_pedidos (ins ∷ resto) s = do
    (s1, r) ← atender ins s
    (s2, rs) ← atender_pedidos resto s1
    some (s2, r ∷ rs)

  unfoldable pub atender_worker :
      List Instruccion → Servidor B → Option (Servidor B × List RespuestaStorage)
  unfolding sumar_worker restar_worker atender_pedidos
  atender_worker pedidos s =
      let s0 = sumar_worker s in
      do
        (fs', rs) ← atender_pedidos pedidos s0.fs
        some (restar_worker (record s0 { fs = fs' }), rs)
