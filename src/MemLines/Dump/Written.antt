-- ===== src/MemLines/Dump/Written.antt =====
-- srcs/mem_lines.cpp, lines 42-44 and 335-340: what the last calls on the object leave in the world.
use Prim.Native.String.{String}
use core_map.Base.{◌≡◌, refl}
use core_map.Base.Effect.{State, ◌>>=◌}
use core_map.Base.Hoare.{Returns}
use core_map.Pmon.{Pmon}
use core_map.MemLines.Object.{MemLines}
use core_map.MemLines.Dump.{Json, Output, document, dump_busy_paths}

pub dump_busy_paths-writes :
    {W J : Type 0} (j : Json J) (o : Output W J) (p : Pmon) (ml : MemLines) (name : String)
    (s : State W)
    → Returns
        (λ r t. t.world ≡ o.write_file name (document j (o.show_hex p.ppin) ml) s.world)
        (dump_busy_paths j o p ml name s)
unfolding dump_busy_paths ◌>>=◌
dump_busy_paths-writes j o p ml name s = refl
