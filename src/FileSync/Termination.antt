-- ===== src/FileSync/Termination.antt =====
-- That the sync service ends, closes every descriptor and stays in its buffer,
-- adbd/src/file_sync_service.c.
use stm32f429_adbd.Common.{
  ℕ, zero, suc, ◌+◌, ◌-◌, ◌≤◌, ◌<◌, ◌≡◌, ◌≢◌, refl, sym, ap, ◌∙◌, Option, none, some, List, [], ◌∷◌,
  ◌++◌, ltb, ◌==◌, length, arith, if-branches, append-nil, append_assoc,
}
use stm32f429_adbd.Common.Words.{word_at}
use stm32f429_adbd.FileSync.{
  sync_data_max, id_stat, id_list, id_send, id_recv, id_quit, System, Sync, Return, ok_zero,
  minus_one, no_fuel, c_string, Prog, ◌>>=◌, readx_pipe, adb_close,
}
use stm32f429_adbd.FileSync.Serve.{
  proceed, answer_request, on_name, on_request, serve, hang_up, file_sync_service,
}
use stm32f429_adbd.FileSync.Invariant.{IsSound, IsSound-weaken, readx_pipe-IsSound, readx_pipe-some}
use stm32f429_adbd.FileSync.Opening.{Ends, fail_with-Ends}
use stm32f429_adbd.FileSync.Sending.{do_send-Ends}
use stm32f429_adbd.FileSync.Receiving.{IsReading, do_stat-Ends, do_list-Ends, do_recv-Ends}

module _ {D : Type 0} (sys : System D) where
  answer_request-Ends :
      IsReading sys → (n id : ℕ) (path : List ℕ) → Ends [] n (answer_request sys (suc n) id path)
  unfolding answer_request
  answer_request-Ends reading n id path =
      if-branches (Ends [] n) (id == id_stat) (λ _. do_stat-Ends sys n path)
        (λ _.
          if-branches (Ends [] n) (id == id_list) (λ _. do_list-Ends sys n path)
            (λ _.
              if-branches (Ends [] n) (id == id_send) (λ _. do_send-Ends sys n path)
                (λ _.
                  if-branches (Ends [] n) (id == id_recv) (λ _. do_recv-Ends sys reading n path)
                    (λ _.
                      if-branches (Ends [] n) (id == id_quit) (λ _ s i. (λ e. ground (arith, e), i))
                        (λ _. fail_with-Ends n _)))))

  proceed-Ends :
      (n : ℕ) (next : Prog D Return) (r : Return)
      → r ≢ no_fuel
      → Ends [] n next
      → Ends [] n (proceed sys next r)
  unfolding proceed
  proceed-Ends n next ok_zero h k s i = k s i
  proceed-Ends n next minus_one h k s i = (h, i)
  proceed-Ends n next no_fuel h k s i = absurd (h refl)

  -- The fuel of a request may be larger than what is left to come when it is read.
  on_name-Ends :
      IsReading sys
      → (n : ℕ) (next : Prog D Return) (id : ℕ) (r : Option (List ℕ)) → Ends [] n next
      → Ends [] n (on_name sys (suc n) next id r)
  unfolding on_name
  on_name-Ends reading n next id none k s i = fail_with-Ends n _ s i
  on_name-Ends reading n next id (some name) k s i =
      let (returned, j) = answer_request-Ends reading n id (c_string name) s i in
      proceed-Ends n next _ returned k _ j

  on_request-Ends :
      IsReading sys
      → (n : ℕ) (next : Prog D Return) (req : List ℕ) → Ends [] n next
      → Ends [] n (on_request sys (suc n) next (some req))
  unfolding on_request
  on_request-Ends reading n next req k =
      if-branches (Ends [] n) (ltb 1024 (word_at req 4)) (λ _. fail_with-Ends n _)
        (λ _ s i.
          on_name-Ends reading n next (word_at req 0) _ k _
            (readx_pipe-IsSound [] n (word_at req 4) s i))

  -- A request of which the first 8 bytes came leaves less to come.
  request-Ends :
      (n fuel : ℕ) (next : Prog D Return)
      → ((b : List ℕ) (s : Sync D)
          → 8 ≤ n
          → IsSound [] (n - 8) s
          → ((on_request sys fuel next (some b) s).0 ≢ no_fuel)
            × IsSound [] n (on_request sys fuel next (some b) s).1)
      → Ends [] n (readx_pipe 8 >>= on_request sys fuel next)
  unfolding on_request
  request-Ends n fuel next k s i =
      by_reply (readx_pipe 8 s).0 (readx_pipe-IsSound [] n 8 s i) (readx_pipe-some [] n 8 s)
    where
      by_reply :
          (r : Option (List ℕ))
          → IsSound [] n (readx_pipe 8 s).1
          → ((b : List ℕ)
              → r ≡ some b
              → IsSound [] n s
              → (length b ≡ 8) × (8 ≤ n) × IsSound [] (n - 8) (readx_pipe 8 s).1)
          → ((on_request sys fuel next r (readx_pipe 8 s).1).0 ≢ no_fuel)
            × IsSound [] n (on_request sys fuel next r (readx_pipe 8 s).1).1
      by_reply none j h = fail_with-Ends n _ _ j
      by_reply (some b) j h = k b _ (h b refl i).1 (h b refl i).2

  serve-Ends : IsReading sys → (n : ℕ) → Ends [] n (serve sys (suc n))
  unfolding serve
  serve-Ends reading zero =
      request-Ends zero zero (serve sys zero) (λ b s h i. absurd (omega (arith, h)))
  serve-Ends reading (suc n) = request-Ends (suc n) (suc n) (serve sys (suc n)) (λ b s h i.
      let (returned, k) =
        on_request-Ends reading n (serve sys (suc n)) b (serve-Ends reading n) s
          (IsSound-weaken [] _ n s (omega arith) i) in
      (returned, IsSound-weaken [] n (suc n) _ (omega arith) k))

-- `file_sync_service` returns, whatever the client sends, with more fuel than bytes can still
-- come in and go out, from a state with the whole buffer and no descriptor of a file open. It
-- then has closed, in order, each descriptor that it opened for a file, and at last its two
-- pipes; and every read has stayed within the buffer. The condition on the system is that a read
-- of a file returns no more than asked and is not interrupted.
pub file_sync_service_lem :
    {D : Type 0} (sys : System D) (n rfd wfd : ℕ) (s : Sync D)
    → IsReading sys
    → length s.incoming + s.room < n
    → length s.buffer ≡ sync_data_max
    → s.closed ≡ s.opened
    → let (r, s') = file_sync_service sys n rfd wfd s in
      (r ≡ ok_zero)
      × (s'.closed ≡ s'.opened ++ (rfd ∷ wfd ∷ []))
      × (length s'.buffer ≡ sync_data_max)
unfolding file_sync_service hang_up adb_close
file_sync_service_lem sys zero rfd wfd s reading fuel size balance = absurd (omega (arith, fuel))
file_sync_service_lem {D} sys (suc n) rfd wfd s reading fuel size balance =
    let whole : IsSound [] n s = record {
      balance = sym balance ∙ sym (append-nil s.closed);
      size = size;
      bound = omega (arith, fuel);
    } in
    let (returned, end) = serve-Ends sys reading n s whole in
    by_end (serve sys (suc n) s).0 returned (serve sys (suc n) s).1 end
  where
    closes :
        (s : Sync D)
        → IsSound [] n s
        → (adb_close sys wfd (adb_close sys rfd s).1).1.closed ≡ s.opened ++ (rfd ∷ wfd ∷ [])
    closes s i =
        append_assoc s.closed (rfd ∷ []) (wfd ∷ [])
        ∙ ap (λ x. x ++ (rfd ∷ wfd ∷ [])) (sym (i.balance ∙ append-nil s.closed))

    by_end :
        (r : Return)
        → r ≢ no_fuel
        → (s : Sync D) → IsSound [] n s
        → ((hang_up sys rfd wfd r s).0 ≡ ok_zero)
          × ((hang_up sys rfd wfd r s).1.closed
              ≡ (hang_up sys rfd wfd r s).1.opened ++ (rfd ∷ wfd ∷ []))
          × (length (hang_up sys rfd wfd r s).1.buffer ≡ sync_data_max)
    by_end ok_zero h s i = (refl, closes s i, i.size)
    by_end minus_one h s i = (refl, closes s i, i.size)
    by_end no_fuel h s i = absurd (h refl)
