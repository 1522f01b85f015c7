-- ===== src/CodeStore/Laws.antt =====
-- What src/runtime/serverless/code_store.rs promises: a map from worker names to sources.
use serverlessd.Prelude.{
  ◌∷◌, Bool-cases, ◌≡◌, ◌≢◌, refl, ap, ◌∙◌, sym, true, false, ◌++◌, arith, returns, none, some, ◌⊎◌,
  inl, inr, Result, ok, err, returns-injective,
}
use serverlessd.Prelude.Text.{Str, codes}
use serverlessd.CodeStore.{
  RegexCrate, FileSystem, Bytes, Store, CodeStoreError, invalid_name, io_error, workers_dir,
  gitignore, js_path, join, check_fs, get_validate_regex, written, upload_worker_code,
  remove_worker_code, get_worker_code,
}
use serverlessd.CodeStore.Names.{
  js_path_absolute, IsPlain, is_worker_name, is_worker_name-IsPlain, WorkerNameRegex, WorkerFiles,
}

module _ (rx : RegexCrate) (fs : FileSystem) (names : WorkerNameRegex rx)
    (files : WorkerFiles fs) where
  open fs use {Disk, read_to_string, write, remove_file}

  -- The cell is empty or holds the compiled pattern.
  abbrev pub IsCached : Store rx fs → Type 0
  IsCached s = (s.validate_regex ≡ none) ⊎ (s.validate_regex ≡ some names.regex)

  check_fs-path : (d : Disk) → (check_fs rx fs d).0 ≡ workers_dir
  unfolding check_fs join
  check_fs-path d = ground arith

  read-check_fs :
      (name : Str) (d : Disk)
      → IsPlain name
      → read_to_string (js_path name) (check_fs rx fs d).1 ≡ read_to_string (js_path name) d
  unfolding check_fs join
  read-check_fs name d p = ground (
    arith,
    fs.read-write_apart gitignore (js_path name) (codes "*") (fs.create_dir_all workers_dir d)
        (files.ignored name p),
    fs.read-create_dir_all workers_dir (js_path name) d,
  )

  pub get_worker_code_lem :
      (name : Str) (s : Store rx fs)
      → IsPlain name
      → (get_worker_code rx fs name s).0 ≡ read_to_string (js_path name) s.disk
  unfolding get_worker_code js_path
  get_worker_code_lem name s p =
      ap (λ dir. read_to_string (join dir (name ++ codes ".js")) (check_fs rx fs s.disk).1)
        (check_fs-path s.disk)
      ∙ read-check_fs name s.disk p

  cached :
      (s : Store rx fs)
      → IsCached s
      → get_validate_regex rx fs s.validate_regex ≡ returns (names.regex, some names.regex)
  unfolding get_validate_regex
  cached s (inl e) = rw (e, get_validate_regex, names.compiles)
  cached s (inr e) = rw (e, get_validate_regex)

  -- A name that the pattern rejects is refused by name, and the disk is left alone.
  pub upload_worker_code_invalid :
      (name : Str) (code : Bytes) (s : Store rx fs)
      → IsCached s
      → is_worker_name name ≡ false
      → upload_worker_code rx fs name code s
        ≡ returns (err (invalid_name name), record s { validate_regex = some names.regex })
  unfolding upload_worker_code
  upload_worker_code_invalid name code s c h = rw (cached s c, names.matches name, h)

  -- The store after a write of the file `name`.
  abbrev pub uploaded : Str → Bytes → Store rx fs → Result (Unit {0}) fs.IoError × Disk
  uploaded name code s = write (js_path name) code (check_fs rx fs s.disk).1

  upload_worker_code_valid :
      (name : Str) (code : Bytes) (s : Store rx fs)
      → IsCached s
      → is_worker_name name ≡ true
      → upload_worker_code rx fs name code s
        ≡ returns (written rx fs (uploaded name code s) (some names.regex))
  unfolding upload_worker_code js_path
  upload_worker_code_valid name code s c h =
      rw (cached s c, names.matches name, h)
        (ap
          (λ dir. returns (
            written rx fs (write (join dir (name ++ codes ".js")) code (check_fs rx fs s.disk).1)
              (some names.regex)))
          (check_fs-path s.disk))

  written_result :
      (w : Result (Unit {0}) fs.IoError × Disk)
      → ((w.0 ≡ ok tt) × ((written rx fs w (some names.regex)).0 ≡ ok tt))
        ⊎ ((e : fs.IoError) × (w.0 ≡ err e)
            × ((written rx fs w (some names.regex)).0 ≡ err (io_error e)))
  unfolding written
  written_result (ok u, d) = inl (refl, refl)
  written_result (err e, d) = inr (e, refl, refl)

  -- What an upload under a valid name reports is what the write reports.
  pub upload_worker_code-write :
      (name : Str) (code : Bytes) (s s' : Store rx fs)
      (r : Result (Unit {0}) (CodeStoreError rx fs))
      → IsCached s
      → is_worker_name name ≡ true
      → upload_worker_code rx fs name code s ≡ returns (r, s')
      → (((uploaded name code s).0 ≡ ok tt) × (r ≡ ok tt))
        ⊎ ((e : fs.IoError) × ((uploaded name code s).0 ≡ err e) × (r ≡ err (io_error e)))
  upload_worker_code-write name code s s' r c h e =
      let same =
        ap (λ x. x.0) (returns-injective (sym e ∙ upload_worker_code_valid name code s c h)) in
      elim (written_result (uploaded name code s)) [
        | inl (w, done) ↦ inl (w, same ∙ done)
        | inr (x, w, failed) ↦ inr (x, w, same ∙ failed)
      ]

  written_cases :
      (w : Result (Unit {0}) fs.IoError × Disk)
      → ((written rx fs w (some names.regex)).1
          ≡ record { validate_regex = some names.regex; disk = w.1 })
        × ((written rx fs w (some names.regex)).0 ≡ ok tt → w.0 ≡ ok tt)
  unfolding written
  written_cases (ok u, d) = (refl, λ h. refl)
  written_cases (err e, d) = (refl, λ h. cc)

  -- An upload under a valid name never panics. If it reports success, the name's source is the
  -- code that was uploaded, as far as it is UTF-8; and whatever it reports, no other plain name's
  -- source has changed.
  pub get-upload_worker_code :
      (name : Str) (code : Bytes) (s : Store rx fs)
      → IsCached s
      → is_worker_name name ≡ true
      → (r : Result (Unit {0}) (CodeStoreError rx fs)) × (s' : Store rx fs) × (upload_worker_code rx
            fs name code s
          ≡ returns (r, s'))
        × IsCached s'
        × (r ≡ ok tt → (get_worker_code rx fs name s').0 ≡ fs.from_utf8 code)
        × ((other : Str)
            → IsPlain other
            → name ≢ other
            → (get_worker_code rx fs other s').0 ≡ (get_worker_code rx fs other s).0)
  get-upload_worker_code name code s c h =
      let w = uploaded name code s in
      let r = written rx fs w (some names.regex) in
      let plain = is_worker_name-IsPlain name h in
      let (stored, success) = written_cases w in
      (
        r.0,
        r.1,
        upload_worker_code_valid name code s c h,
        inr (ap (λ t. t.validate_regex) stored),
        λ done.
            get_worker_code_lem name r.1 plain
            ∙ ap (λ t. read_to_string (js_path name) t.disk) stored
            ∙ fs.read-write (js_path name) code (check_fs rx fs s.disk).1 (success done),
        λ other p ne.
            get_worker_code_lem other r.1 p
            ∙ ap (λ t. read_to_string (js_path other) t.disk) stored
            ∙ fs.read-write_apart (js_path name) (js_path other) code (check_fs rx fs s.disk).1
                (files.siblings name other plain p ne)
            ∙ read-check_fs other s.disk p
            ∙ sym (get_worker_code_lem other s p),
      )

  remove_worker_code_lem :
      (name : Str) (s : Store rx fs)
      → remove_worker_code rx fs name s
        ≡ record s { disk = (remove_file (js_path name) (check_fs rx fs s.disk).1).1 }
  unfolding remove_worker_code js_path
  remove_worker_code_lem name s =
      ap
        (λ dir. record s {
          disk = (remove_file (join dir (name ++ codes ".js")) (check_fs rx fs s.disk).1).1;
        })
        (check_fs-path s.disk)

  -- After a removal that the file system carried out, the name has no source; no other plain
  -- name's source has changed, carried out or not.
  pub get-remove_worker_code :
      (name : Str) (s : Store rx fs)
      → IsPlain name
      → ((remove_file (js_path name) (check_fs rx fs s.disk).1).0 ≡ ok tt
          → (get_worker_code rx fs name (remove_worker_code rx fs name s)).0 ≡ none)
        × ((other : Str)
            → IsPlain other
            → name ≢ other
            → (get_worker_code rx fs other (remove_worker_code rx fs name s)).0
              ≡ (get_worker_code rx fs other s).0)
  get-remove_worker_code name s plain =
      let removed = ap (λ t. t.disk) (remove_worker_code_lem name s) in
      let s' = remove_worker_code rx fs name s in
      (
        λ done.
            get_worker_code_lem name s' plain
            ∙ ap (read_to_string (js_path name)) removed
            ∙ fs.read-remove_file (js_path name) (check_fs rx fs s.disk).1 done,
        λ other p ne.
            get_worker_code_lem other s' p
            ∙ ap (read_to_string (js_path other)) removed
            ∙ fs.read-remove_file_apart (js_path name) (js_path other) (check_fs rx fs s.disk).1
                (files.siblings name other plain p ne)
            ∙ read-check_fs other s.disk p
            ∙ sym (get_worker_code_lem other s p),
      )

  -- A read leaves every plain name's source as it was.
  pub get-get_worker_code :
      (other name : Str) (s : Store rx fs)
      → IsPlain name
      → (get_worker_code rx fs name (get_worker_code rx fs other s).1).0
        ≡ (get_worker_code rx fs name s).0
  unfolding get_worker_code
  get-get_worker_code other name s p =
      get_worker_code_lem name (get_worker_code rx fs other s).1 p
      ∙ read-check_fs name s.disk p
      ∙ sym (get_worker_code_lem name s p)

  pub get_worker_code-IsCached :
      (name : Str) (s : Store rx fs) → IsCached s → IsCached (get_worker_code rx fs name s).1
  unfolding get_worker_code
  get_worker_code-IsCached name s c = c

  pub remove_worker_code-IsCached :
      (name : Str) (s : Store rx fs) → IsCached s → IsCached (remove_worker_code rx fs name s)
  unfolding remove_worker_code
  remove_worker_code-IsCached name s c = c

  pub upload_worker_code-IsCached :
      (name : Str) (code : Bytes) (s : Store rx fs)
      → IsCached s
      → (r : Result (Unit {0}) (CodeStoreError rx fs)) × (s' : Store rx fs) × (upload_worker_code rx
            fs name code s
          ≡ returns (r, s'))
        × IsCached s'
  upload_worker_code-IsCached name code s c = elim (Bool-cases (is_worker_name name)) [
    | inl h ↦ let (r, s', e, c', _, _) = get-upload_worker_code name code s c h in (r, s', e, c')
    | inr h ↦ (
      err (invalid_name name),
      record s { validate_regex = some names.regex },
      upload_worker_code_invalid name code s c h,
      inr refl,
    )
  ]

  -- A removal does not validate: a name that begins with a slash, which an upload refuses, removes
  -- the file of that absolute path, outside the workers directory.
  pub remove_worker_code_absolute :
      (rest : Str) (code : Bytes) (s : Store rx fs)
      → IsCached s
      → ((remove_worker_code rx fs (b'/' ∷ rest) s).disk
          ≡ (remove_file (b'/' ∷ rest ++ codes ".js") (check_fs rx fs s.disk).1).1)
        × (upload_worker_code rx fs (b'/' ∷ rest) code s
            ≡ returns
                (err (invalid_name (b'/' ∷ rest)), record s { validate_regex = some names.regex }))
  unfolding is_worker_name
  remove_worker_code_absolute rest code s c = (
    ap (λ t. t.disk) (remove_worker_code_lem (b'/' ∷ rest) s)
        ∙ ap (λ p. (remove_file p (check_fs rx fs s.disk).1).1) (js_path_absolute rest),
    upload_worker_code_invalid (b'/' ∷ rest) code s c refl,
  )
