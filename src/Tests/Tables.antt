-- ===== src/Tests/Tables.antt =====
-- A JDWP process and text buffers.
use stm32f429_adbd.Common.{ℕ, ◌≡◌, refl, true, some, List, [], ◌∷◌, arith, codes}
use stm32f429_adbd.Io.{accepted}
use stm32f429_adbd.Jdwp.{JdwpProcess, kept, write_stage, sends}
use stm32f429_adbd.Jdwp.Queue.{IsQueue, queue, write_stage_lem}

abbrev process : JdwpProcess
process = record {
  pid = some 77;
  socket = 5;
  in_buff = codes "004d";
  out_fds = 8 ∷ 0 ∷ 0 ∷ 0 ∷ [];
  out_count = 1;
  want_write = true;
}

process-IsQueue : IsQueue process
process-IsQueue = record { size = refl; within = omega arith; wants = refl }

write_stage_lem_example :
    (fd : ℕ) × (q : JdwpProcess) × (write_stage true true true (accepted 1 ∷ []) process
      ≡ kept (fd ∷ []) (fd ∷ []) q)
    × IsQueue q
    × (queue process ≡ fd ∷ queue q)
unfolding sends
write_stage_lem_example =
    write_stage_lem (accepted 1 ∷ []) process process-IsQueue (λ e. omega (arith, e))
      (λ e. ground (arith, e))

abbrev memory : List ℕ
memory = 1 ∷ 2 ∷ 3 ∷ 4 ∷ []
