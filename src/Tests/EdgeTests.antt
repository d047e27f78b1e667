-- ===== src/Tests/EdgeTests.antt =====
-- Sizes of chunks, the numbers of a node, and a download from the command line.
use air_store.Prelude.{
  ◌+◌, ◌*◌, ◌≡◌, ◌≤◌, ◌<◌, ◌⊎◌, refl, Text, text_eq, codes, Bytes, true, false, none, some, List,
  [], ◌∷◌, ◌++◌, length, All, arith,
}
use air_store.Core.Exec.{ok}
use air_store.Core.Hashing.{calculate_bytes_hash, hexdigest, update}
use air_store.Core.Models.{ChunkModel}
use air_store.Core.Chunking.{stream_chunks, read_chunks, number_chunks}
use air_store.Core.Chunking.Bounds.{stream_chunks_bounds}
use air_store.Node.Disk.{Disk, read_file}
use air_store.Node.Engine.{get_chunk_path, safe_id, is_safe, hash_agrees, chunk_exists, store_chunk}
use air_store.Node.App.{Usage, get_stats}
use air_store.Node.App.Counted.{get_stats-store_chunk}
use air_store.Node.Handlers.{response, no_reply}
use air_store.Database.{get_chunks_for_file}
use air_store.Database.Files.Listed.{IsAscending, get_chunks_for_file_lists}
use air_store.Prelude.{Elem}
use air_store.Cli.{Api, Library, Console}
use air_store.Cli.Commands.{cmd_download}
use air_store.Cli.Commands.Outcomes.{IsSaved, cmd_download-IsSaved}
use air_store.Tests.Fixtures.{
  small_db, ascii_platform, whole_float, marked_hash, content_abc, file_f,
}

abbrev two_pieces : List (ChunkModel × Bytes)
two_pieces = number_chunks marked_hash file_f 0 (codes "ab" ∷ (codes "c" ∷ []))

two_streamed : stream_chunks marked_hash (some content_abc) file_f 2 ≡ ok two_pieces
unfolding stream_chunks read_chunks
two_streamed = refl

stream_chunks_bounds_example :
    (length content_abc ≤ length two_pieces * 2)
    × (length two_pieces * 2 < length content_abc + 2)
    × All (λ p. (0 < p.0.size) × (p.0.size ≤ 2)) two_pieces
stream_chunks_bounds_example =
    stream_chunks_bounds marked_hash content_abc file_f 2 (omega arith) two_streamed

abbrev small_usage : Usage
small_usage = record { total = 1000; free = 600; used = 400 }

-- A disk with one chunk and one other file.
abbrev old_disk : Disk
old_disk = (codes "k2.chunk", codes "xyz") ∷ ((codes "notes.txt", codes "n") ∷ [])

abc_agrees_there : hash_agrees ascii_platform content_abc (some (codes "habc")) ≡ true
unfolding hash_agrees calculate_bytes_hash hexdigest update text_eq
abc_agrees_there = refl

k1_absent : chunk_exists ascii_platform (codes "k1") old_disk ≡ false
unfolding chunk_exists get_chunk_path safe_id is_safe read_file text_eq
k1_absent = refl

get_stats-store_chunk_example :
    get_stats small_usage
      (store_chunk ascii_platform (codes "k1") content_abc (some (codes "habc")) old_disk).1
    ≡ record (get_stats small_usage old_disk) {
      airstore_chunk_bytes =
          (get_stats small_usage old_disk).airstore_chunk_bytes + length content_abc;
      chunk_count = (get_stats small_usage old_disk).chunk_count + 1;
    }
get_stats-store_chunk_example =
    get_stats-store_chunk ascii_platform small_usage (codes "k1") content_abc (some (codes "habc"))
      old_disk abc_agrees_there k1_absent

abbrev small_library : Library
small_library = record {
  float = whole_float;
  abs = λ n. n;
  two_decimals = λ n. n ∷ [];
  describe = λ e. codes "error";
  file_hash = marked_hash;
  open_failure = λ path. none;
  resolve = λ path. path;
}

-- A manager that sends "abc" in two pieces.
abbrev sending_api : Api (Unit {0})
sending_api = record {
  get_object = λ url net. (no_reply, net);
  get_list = λ url net. (no_reply, net);
  get_details = λ url net. (no_reply, net);
  post = λ url net. (no_reply, net);
  post_file = λ url name content chunk_size replication net. (no_reply, net);
  stream = λ url net. (
    response 200 (codes "attachment; filename=\"a.txt\"", codes "ab" ∷ (codes "c" ∷ []), none),
    net,
  );
}

abbrev small_console : Console (Unit {0})
small_console = record { printed = []; files = []; net = tt }

abbrev in_home : Text → Text
in_home name = codes "/home/" ++ name

cmd_download-IsSaved_example :
    let (code, c) =
      cmd_download small_library sending_api (codes "http://m") file_f none in_home small_console in
    ((code ≡ 0)
      × IsSaved small_library sending_api
          (codes "http://m")
          none
          in_home
          (sending_api.stream
            (codes "http://m" ++ (codes "/api/files/" ++ (file_f ++ codes "/download")))
            tt).0
          c)
    ⊎ (code ≡ 1)
cmd_download-IsSaved_example =
    cmd_download-IsSaved small_library sending_api (codes "http://m") file_f none in_home
      small_console

get_chunks_for_file_lists_example :
    let cs = get_chunks_for_file file_f small_db in
    All (λ c. (c.file_id ≡ file_f) × Elem c small_db.chunks) cs
    × All (λ c. c.file_id ≡ file_f → Elem c cs) small_db.chunks
    × IsAscending cs
get_chunks_for_file_lists_example = get_chunks_for_file_lists file_f small_db
