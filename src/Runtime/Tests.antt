-- ===== src/Runtime/Tests.antt =====
-- Runs of Kernel/runtime.c.
use vibecoded_os.Prelude.{ℕ, ◌+◌, ◌<◌, ◌≤◌, ◌≡◌, refl, [], ◌∷◌, false, ◌⊎◌}
use vibecoded_os.Runtime.{Memory, mem_move, utoa, utoa_loop}
use vibecoded_os.Runtime.Blocks.{mem_move_lem}

abbrev counting : Memory
counting = λ x. x

decimal : utoa 2048 10 false ≡ b'2' ∷ b'0' ∷ b'4' ∷ b'8' ∷ []
unfolding utoa utoa_loop
decimal = refl

mem_move_lem_example :
    ((k : ℕ) → k < 5 → mem_move 12 10 5 counting (12 + k) ≡ counting (10 + k))
    × ((x : ℕ) → (x < 12) ⊎ (12 + 5 ≤ x) → mem_move 12 10 5 counting x ≡ counting x)
mem_move_lem_example = mem_move_lem 12 10 5 counting
