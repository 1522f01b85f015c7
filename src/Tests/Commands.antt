-- ===== src/Tests/Commands.antt =====
-- The upload command on a disk in memory.
use serverlessd.Prelude.{◌≡◌, [], none, some}
use serverlessd.Prelude.Text.{Str, codes}
use serverlessd.CodeStore.{Store, Bytes, js_path, join, workers_dir, get_worker_code}
use serverlessd.CodeStore.Names.{IsPlain}
use serverlessd.Commands.{UploadArgs, successfully_written, upload_command}
use serverlessd.Commands.Upload.{upload_command-lands}
use serverlessd.Tests.Samples.{regex, names, memory, files}

abbrev args : UploadArgs
args = record { file = codes "main.js"; name = codes "hello" }

abbrev source : Bytes
source = codes "export default {}"

abbrev blank : Store regex memory
blank = record { validate_regex = none; disk = [] }

upload_command-lands_example :
    ((upload_command memory args (some source) []).0 ≡ successfully_written
      → memory.read_to_string
          (join workers_dir (codes "main.js"))
          (upload_command memory args (some source) []).1
        ≡ some source)
    × ((name : Str)
        → IsPlain name
        → memory.Apart (join workers_dir (codes "main.js")) (js_path name)
        → (get_worker_code regex memory name
            (record blank { disk = (upload_command memory args (some source) []).1 })).0
          ≡ (get_worker_code regex memory name blank).0)
upload_command-lands_example = upload_command-lands regex memory names files args source blank
