-- ===== src/Tests.antt =====
-- Runs of the models at concrete inputs, and the theorems at inputs that meet their hypotheses.
mod SetTests
mod LflTests
mod MarkTests
mod AoaTests
mod ManualTests
mod TraceTests
mod RcTests
mod WaitTests
mod ArrayTests
mod RcSystemTests
mod WorkerTests
mod CheckTests
mod CounterTests
mod HashTests
mod HeapTests
mod InitTests
