-- ===== src/Api/Found.antt =====
-- The commands find the API where it was started.
use true_dns.Base.{
  ℕ, pos, ◌≡◌, ◌<◌, refl, Bool, true, Option, some, List, [], ◌∷◌, ◌++◌, arith, ap, ◌∙◌, sym,
  lt→ltb,
}
use true_dns.Text.{Bytes}
use true_dns.Net.{Net}
use true_dns.Matcher.{member}
use true_dns.Api.Ports.{
  Writing, Strconv, IsLawful, start, write_port_file, read_port_file, port_file_after,
}
use true_dns.Api.Clients.{
  loopback_base, recorded_base, configured_base, uniq, api_base_candidates, first_reachable_api,
}

module _ (net : Net) (conv : Strconv) (lawful : IsLawful conv) where
  -- The port file is read as the port that was written.
  read_port_file-write_port_file :
      (n : ℕ) (file : Option Bytes)
      → read_port_file conv (write_port_file conv Writing.written n file) ≡ some (pos n)
  read_port_file-write_port_file n file = ap conv.atoi (lawful.trim_itoa n) ∙ lawful.atoi_itoa n

  uniq_first : (u : Bytes) (us : List Bytes) → uniq [] (u ∷ us) ≡ u ∷ uniq (u ∷ []) us
  unfolding uniq member
  uniq_first u us = refl

  recorded_base_positive :
      (n : ℕ) → 0 < n → recorded_base conv (some (pos n)) ≡ loopback_base conv n ∷ []
  recorded_base_positive n positive = ground (arith, lt→ltb 0 n positive)

  -- After a start that bound a port and wrote the port file, the commands try that port first,
  -- whatever was configured, and find the API there if it answers.
  pub first_reachable_api-start :
      (listen : Bytes → Option ℕ) (addr : Bytes) (file : Option Bytes) (answers : Bytes → Bool)
      (enabled : Bool) (listen_addr : Bytes) {n : ℕ} {after : Option Bytes}
      → start net conv listen Writing.written addr file ≡ (some n, after)
      → 0 < n
      → answers (loopback_base conv n) ≡ true
      → first_reachable_api answers (api_base_candidates net conv after enabled listen_addr)
        ≡ some (loopback_base conv n)
  unfolding start api_base_candidates first_reachable_api
  first_reachable_api-start listen addr file answers enabled listen_addr {n} {after} run positive
        alive =
      let bound : (start net conv listen Writing.written addr file).0 ≡ some n =
        ap (λ x. x.0) run in
      let recorded : write_port_file conv Writing.written n file ≡ after =
        ap (port_file_after conv Writing.written file) (sym bound) ∙ ap (λ x. x.1) run in
      let read : recorded_base conv (read_port_file conv after) ≡ loopback_base conv n ∷ [] =
        ap (λ f. recorded_base conv (read_port_file conv f)) (sym recorded)
        ∙ ap (recorded_base conv) (read_port_file-write_port_file n file)
        ∙ recorded_base_positive n positive in
      let first : api_base_candidates net conv after enabled listen_addr
          ≡ loopback_base conv n
            ∷ uniq (loopback_base conv n ∷ []) (configured_base net enabled listen_addr) =
        ap (λ l. uniq [] (l ++ configured_base net enabled listen_addr)) read
        ∙ uniq_first (loopback_base conv n) (configured_base net enabled listen_addr) in
      ap (first_reachable_api answers) first ∙ rw alive refl
