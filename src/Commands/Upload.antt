-- ===== src/Commands/Upload.antt =====
-- Where the upload command of src/main.rs puts a worker's source.
use serverlessd.Prelude.{◌≡◌, refl, sym, ap, ◌∙◌, some, Result, ok, err}
use serverlessd.Prelude.Text.{Str}
use serverlessd.CodeStore.{
  RegexCrate, FileSystem, Bytes, Store, join, workers_dir, js_path, get_worker_code,
}
use serverlessd.CodeStore.Names.{IsPlain, WorkerNameRegex, WorkerFiles}
use serverlessd.CodeStore.Laws.{get_worker_code_lem}
use serverlessd.Commands.{UploadArgs, successfully_written, upload_command, outcome_of}

module _ (rx : RegexCrate) (fs : FileSystem) (names : WorkerNameRegex rx)
    (files : WorkerFiles fs) where
  open fs use {read_to_string, write}

  outcome_of_disk : (r : Result (Unit {0}) fs.IoError × fs.Disk) → (outcome_of fs r).1 ≡ r.1
  unfolding outcome_of
  outcome_of_disk (ok _, d) = refl
  outcome_of_disk (err _, d) = refl

  printed_ok :
      (r : Result (Unit {0}) fs.IoError × fs.Disk)
      → (outcome_of fs r).0 ≡ successfully_written
      → r.0 ≡ ok tt
  unfolding outcome_of
  printed_ok (ok tt, d) h = refl
  printed_ok (err e, d) h = cc

  -- Where the upload command says that it has written, its contents are what is read at the path
  -- of the file joined to the workers directory. Whatever it says, the code of each plain name whose
  -- own path lies apart from that one is as before, also where it is the name given to the command.
  pub upload_command-lands :
      (args : UploadArgs) (contents : Bytes) (s : Store rx fs)
      → ((upload_command fs args (some contents) s.disk).0 ≡ successfully_written
          → read_to_string
              (join workers_dir args.file)
              (upload_command fs args (some contents) s.disk).1
            ≡ fs.from_utf8 contents)
        × ((name : Str)
            → IsPlain name
            → fs.Apart (join workers_dir args.file) (js_path name)
            → (get_worker_code rx fs name
                (record s { disk = (upload_command fs args (some contents) s.disk).1 })).0
              ≡ (get_worker_code rx fs name s).0)
  unfolding upload_command
  upload_command-lands args contents s = (
    λ h.
        ap (read_to_string (join workers_dir args.file))
          (outcome_of_disk (write (join workers_dir args.file) contents s.disk))
        ∙ fs.read-write (join workers_dir args.file) contents s.disk
            (printed_ok (write (join workers_dir args.file) contents s.disk) h),
    λ name p apart.
        get_worker_code_lem rx fs names files name _ p
        ∙ ap (read_to_string (js_path name))
            (outcome_of_disk (write (join workers_dir args.file) contents s.disk))
        ∙ fs.read-write_apart (join workers_dir args.file) (js_path name) contents s.disk apart
        ∙ sym (get_worker_code_lem rx fs names files name s p),
  )
