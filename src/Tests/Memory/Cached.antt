-- ===== src/Tests/Memory/Cached.antt =====
-- The stub in memory behind the cache of state/state_cached.go.
use cckit.Base.{ap, sym}
use cckit.Lang.Result.{Result}
use cckit.State.Cached.{stub_of}
use cckit.State.Cached.Laws.{ReadsFrame}
use cckit.State.Stub.{CompositeKeys}
use cckit.Tests.Memory.{Memory, memory_stub, memory_stub-CompositeKeys}

pub memory_stub-ReadsFrame : ReadsFrame memory_stub
memory_stub-ReadsFrame k j b s s' ne h =
    ap (λ (p : Result (Unit {0}) × Memory). memory_stub.get_state j p.1) (sym h)

pub stub_of-CompositeKeys : CompositeKeys (stub_of memory_stub)
unfolding stub_of
stub_of-CompositeKeys = record {
  split-create = memory_stub-CompositeKeys.split-create;
  contains-create = memory_stub-CompositeKeys.contains-create;
}
