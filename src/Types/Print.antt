-- ===== src/Types/Print.antt =====
-- srcs/types.h, lines 364-383: what `operator <<` prints of a FixedEventControlRegister, a line for each entry.
use Prim.Native.String.{String}
use core_map.Base.{ℕ, List, [], ◌∷◌}
use core_map.Types.FixedControl.{FixedEventControlRegister}

print_register : FixedEventControlRegister → List (String × ℕ)
print_register reg =
    ("os0", reg.os0)
    ∷ ("usr0", reg.usr0)
    ∷ ("any_thread0", reg.any_thread0)
    ∷ ("enable_pmi0", reg.enable_pmi0)
    ∷ ("os1", reg.os1)
    ∷ ("usr1", reg.usr1)
    ∷ ("any_thread1", reg.any_thread1)
    ∷ ("enable_pmi10", reg.enable_pmi1)
    ∷ ("os2", reg.os2)
    ∷ ("usr2", reg.usr2)
    ∷ ("any_thread2", reg.any_thread2)
    ∷ ("enable_pmi2", reg.enable_pmi2)
    ∷ ("reserved1", reg.reserved1)
    ∷ []
