-- ===== src/Override/Load.antt =====
-- `LoadFiles` and `LoadURLs`: loading several sources after each other. What opening a file or
-- fetching a URL gives is an argument, the texts of its errors included.
use true_dns.Base.{
  ℕ, ◌≡◌, refl, inl, inr, Bool, true, false, ◌&&◌, Option, none, some, List, [], ◌∷◌, ◌++◌, arith,
  if◌then◌else◌, ℤ, Bool-cases, ap, sym, ◌∙◌, ◌==◌,
}
use true_dns.Text.{Bytes, codes, bytes_eq}
use true_dns.Net.{Net}
use true_dns.Override.Defs.{
  Hosts, Table, get_key, parse_lines, load_source, refresh_meta, record_error, clear_error,
}
use true_dns.Override.Lookups.{load_source_replaces}

pub data Opened : Type 0 where
  open_failed : Bytes → Opened
  -- the lines, whether they were read to the end, and the error if not
  opened : List Bytes → Bool → Bytes → Opened

pub data Fetched : Type 0 where
  request_failed : Bytes → Fetched
  do_failed : Bytes → Fetched
  -- the status, its text in decimal, and the body
  responded : ℕ → Bytes → List Bytes → Bool → Bytes → Fetched

abbrev pub file_error : Bytes → Bytes → Bytes
file_error p e = codes "override file " ++ p ++ codes ": " ++ e

abbrev pub url_error : Bytes → Bytes → Bytes
url_error u e = codes "override url " ++ u ++ codes ": " ++ e

-- the end of both functions: the table and the error returned
abbrev pub settle : Option Bytes → Table → Table × Option Bytes
settle none t = (clear_error t, none)
settle (some e) t = (record_error e t, some e)

abbrev pub is_none : {A : Type 0} → Option A → Bool
is_none none = true
is_none (some x) = false

abbrev pub text_of : Option Bytes → Bytes
text_of none = []
text_of (some e) = e

module _ (net : Net) where
  -- `loadSource`, and the error after it
  abbrev pub load_one :
      ℤ → Bytes → Bytes → Bytes → List Bytes → Bool → Option Bytes → Table → Table × Option Bytes
  load_one now e wrapped src lines complete last t = (
    (load_source net now e src lines complete t).0,
    (if (load_source net now e src lines complete t).2 then last else some wrapped),
  )

  abbrev pub file_step : ℤ → Bytes → Opened → Option Bytes → Table → Table × Option Bytes
  file_step now p (open_failed e) last t = (t, some (file_error p e))
  file_step now p (opened lines complete e) last t =
      load_one now e (file_error p e) p lines complete last t

  -- the body of the loop of `LoadURLs`
  abbrev pub url_step : ℤ → Bytes → Fetched → Option Bytes → Table → Table × Option Bytes
  url_step now u (request_failed e) last t = (record_error (url_error u e) t, some (url_error u e))
  url_step now u (do_failed e) last t = (t, some (url_error u e))
  url_step now u (responded status text lines complete e) last t =
      if status == 200
      then load_one now e (url_error u e) u lines complete last t
      else (t, some (url_error u (codes "http " ++ text)))

  unfoldable pub load_files :
      ℤ → List (Bytes × Opened) → Option Bytes → Table → Table × Option Bytes
  load_files now [] last t = settle last t
  load_files now ((p, o) ∷ rest) last t =
      let (u, err) = file_step now p o last t in load_files now rest err u

  unfoldable pub load_urls :
      ℤ → List (Bytes × Fetched) → Option Bytes → Table → Table × Option Bytes
  load_urls now [] last t = settle last t
  load_urls now ((u, f) ∷ rest) last t =
      let (v, err) = url_step now u f last t in load_urls now rest err v

  -- the body that a file or a fetch delivers in full
  abbrev pub whole_file : Opened → Option (List Bytes)
  whole_file (open_failed e) = none
  whole_file (opened lines complete e) = if complete then some lines else none

  abbrev pub whole_body : Fetched → Option (List Bytes)
  whole_body (request_failed e) = none
  whole_body (do_failed e) = none
  whole_body (responded status text lines complete e) =
      if (status == 200) && complete then some lines else none

  -- the entries of source `s` after readings in turn: those of its last one in full, and the old
  -- ones if there is none
  abbrev pub latest : Bytes → List (Bytes × Option (List Bytes)) → Option Hosts → Option Hosts
  latest s [] old = old
  latest s ((p, none) ∷ rest) old = latest s rest old
  latest s ((p, some lines) ∷ rest) old =
      latest s rest (if bytes_eq p s then some (parse_lines net lines []) else old)

  abbrev pub file_readings : List (Bytes × Opened) → List (Bytes × Option (List Bytes))
  file_readings [] = []
  file_readings ((p, o) ∷ rest) = (p, whole_file o) ∷ file_readings rest

  abbrev pub url_readings : List (Bytes × Fetched) → List (Bytes × Option (List Bytes))
  url_readings [] = []
  url_readings ((u, f) ∷ rest) = (u, whole_body f) ∷ url_readings rest

  abbrev pub all_whole : List (Bytes × Option (List Bytes)) → Bool
  all_whole [] = true
  all_whole ((p, none) ∷ rest) = false
  all_whole ((p, some lines) ∷ rest) = all_whole rest

  -- What a run of the loop leaves, from the readings in turn: every source has the entries of its
  -- last reading in full, there is no error just if every reading was in full, and the error is
  -- recorded.
  abbrev pub IsLoaded : List (Bytes × Option (List Bytes)) → Table → Table × Option Bytes → Type 0
  IsLoaded readings t out =
      ((s : Bytes) → get_key s out.0.sources ≡ latest s readings (get_key s t.sources))
      × (is_none out.1 ≡ all_whole readings)
      × (out.0.meta.last_error ≡ text_of out.1)

  load_one_lem :
      (now : ℤ) (e wrapped src : Bytes) (lines : List Bytes) (complete : Bool) (last : Option Bytes)
      (t : Table)
      → ((s : Bytes)
          → get_key s (load_one now e wrapped src lines complete last t).0.sources
            ≡ latest s ((src, (if complete then some lines else none)) ∷ []) (get_key s t.sources))
        × (is_none (load_one now e wrapped src lines complete last t).1
            ≡ (complete && is_none last))
  unfolding load_source refresh_meta
  load_one_lem now e wrapped src lines true last t =
      ((λ s. (load_source_replaces net now e src lines true t).0 s), refl)
  load_one_lem now e wrapped src lines false last t = ((λ s. refl), refl)

  file_step_lem :
      (now : ℤ) (p : Bytes) (o : Opened) (last : Option Bytes) (t : Table)
      → ((s : Bytes)
          → get_key s (file_step now p o last t).0.sources
            ≡ latest s ((p, whole_file o) ∷ []) (get_key s t.sources))
        × (is_none (file_step now p o last t).1
            ≡ (all_whole ((p, whole_file o) ∷ []) && is_none last))
  file_step_lem now p (open_failed e) last t = ((λ s. refl), refl)
  file_step_lem now p (opened lines true e) last t =
      load_one_lem now e (file_error p e) p lines true last t
  file_step_lem now p (opened lines false e) last t =
      load_one_lem now e (file_error p e) p lines false last t

  pub url_step_lem :
      (now : ℤ) (u : Bytes) (f : Fetched) (last : Option Bytes) (t : Table)
      → ((s : Bytes)
          → get_key s (url_step now u f last t).0.sources
            ≡ latest s ((u, whole_body f) ∷ []) (get_key s t.sources))
        × (is_none (url_step now u f last t).1
            ≡ (all_whole ((u, whole_body f) ∷ []) && is_none last))
  url_step_lem now u (request_failed e) last t = ((λ s. refl), refl)
  url_step_lem now u (do_failed e) last t = ((λ s. refl), refl)
  url_step_lem now u (responded status text lines complete e) last t =
      elim (Bool-cases (status == 200)) [
        | inl b ↦ elim (Bool-cases complete) [
          | inl c ↦ rw (b, c) (load_one_lem now e (url_error u e) u lines true last t)
          | inr c ↦ rw (b, c) (load_one_lem now e (url_error u e) u lines false last t)
        ]
        | inr b ↦ rw b ((λ s. refl), refl)
      ]

  latest_cons :
      (s p : Bytes) (o : Option (List Bytes)) (rest : List (Bytes × Option (List Bytes)))
      (old : Option Hosts)
      → latest s ((p, o) ∷ rest) old ≡ latest s rest (latest s ((p, o) ∷ []) old)
  latest_cons s p none rest old = refl
  latest_cons s p (some lines) rest old = refl

  all_whole_cons :
      (p : Bytes) (o : Option (List Bytes)) (rest : List (Bytes × Option (List Bytes))) (b : Bool)
      → (all_whole ((p, o) ∷ rest) && b) ≡ (all_whole rest && (all_whole ((p, o) ∷ []) && b))
  all_whole_cons p none rest b = ground arith
  all_whole_cons p (some lines) rest b = refl

  -- The same with an error already there.
  abbrev IsLoadedFrom :
      List (Bytes × Option (List Bytes)) → Option Bytes → Table → Table × Option Bytes → Type 0
  IsLoadedFrom readings last t out =
      ((s : Bytes) → get_key s out.0.sources ≡ latest s readings (get_key s t.sources))
      × (is_none out.1 ≡ (all_whole readings && is_none last))
      × (out.0.meta.last_error ≡ text_of out.1)

  loaded_nil : (last : Option Bytes) (t : Table) → IsLoadedFrom [] last t (settle last t)
  loaded_nil none t = ((λ s. refl), refl, refl)
  loaded_nil (some e) t = ((λ s. refl), refl, refl)

  loaded_cons :
      (p : Bytes) (o : Option (List Bytes)) (rest : List (Bytes × Option (List Bytes)))
      (last err : Option Bytes) (t u : Table) (out : Table × Option Bytes)
      → ((s : Bytes) → get_key s u.sources ≡ latest s ((p, o) ∷ []) (get_key s t.sources))
      → (is_none err ≡ (all_whole ((p, o) ∷ []) && is_none last))
      → IsLoadedFrom rest err u out
      → IsLoadedFrom ((p, o) ∷ rest) last t out
  loaded_cons p o rest last err t u out h k l = (
    (λ s. l.0 s ∙ ap (latest s rest) (h s) ∙ sym (latest_cons s p o rest (get_key s t.sources))),
    l.1 ∙ ap (λ b. all_whole rest && b) k ∙ sym (all_whole_cons p o rest (is_none last)),
    l.2,
  )

  load_files_from :
      (now : ℤ) (files : List (Bytes × Opened)) (last : Option Bytes) (t : Table)
      → IsLoadedFrom (file_readings files) last t (load_files now files last t)
  unfolding load_files
  load_files_from now [] last t = loaded_nil last t
  load_files_from now ((p, o) ∷ rest) last t =
      let (u, err) = file_step now p o last t in
      let step = file_step_lem now p o last t in
      loaded_cons p (whole_file o) (file_readings rest) last err t u (load_files now rest err u)
        step.0 step.1 (load_files_from now rest err u)

  load_urls_from :
      (now : ℤ) (urls : List (Bytes × Fetched)) (last : Option Bytes) (t : Table)
      → IsLoadedFrom (url_readings urls) last t (load_urls now urls last t)
  unfolding load_urls
  load_urls_from now [] last t = loaded_nil last t
  load_urls_from now ((p, f) ∷ rest) last t =
      let (u, err) = url_step now p f last t in
      let step = url_step_lem now p f last t in
      loaded_cons p (whole_body f) (url_readings rest) last err t u (load_urls now rest err u)
        step.0 step.1 (load_urls_from now rest err u)

  and_true : (b : Bool) → (b && true) ≡ b
  and_true true = refl
  and_true false = refl

  finished :
      (readings : List (Bytes × Option (List Bytes))) (t : Table) (out : Table × Option Bytes)
      → IsLoadedFrom readings none t out
      → IsLoaded readings t out
  finished readings t out l = (l.0, l.1 ∙ and_true (all_whole readings), l.2)

  -- Loading files leaves every source with the entries of its last file read in full, or with its
  -- old entries where there is none; it returns no error just if every file was read in full, and
  -- what it returns is recorded, a success by clearing the record.
  load_files-IsLoaded :
      (now : ℤ) (files : List (Bytes × Opened)) (t : Table)
      → IsLoaded (file_readings files) t (load_files now files none t)
  load_files-IsLoaded now files t =
      finished (file_readings files) t (load_files now files none t)
        (load_files_from now files none t)

  -- Loading URLs does the same, where a reading in full is a response with status 200 whose body
  -- was scanned without an error.
  load_urls-IsLoaded :
      (now : ℤ) (urls : List (Bytes × Fetched)) (t : Table)
      → IsLoaded (url_readings urls) t (load_urls now urls none t)
  load_urls-IsLoaded now urls t =
      finished (url_readings urls) t (load_urls now urls none t) (load_urls_from now urls none t)
