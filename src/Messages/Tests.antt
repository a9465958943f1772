-- ===== src/Messages/Tests.antt =====
-- Runs of the message service on a table in memory: a list of rows, in which everyone is a member.
use one_crew.Common.{◌≤◌, ◌≡◌, ◌≢◌, ◌⊎◌, Bool, true, false, none, List, []}
use one_crew.Workspace.{done}
use one_crew.Messages.{Message, CreateMessageInput, posted, World, create}
use one_crew.Messages.Memory.{append, rooms, plain}
use one_crew.Messages.Posting.{IsRefused, HasPosted, posting_branches}

abbrev hello : CreateMessageInput
hello = record { channel_id = "general"; user_id = "mia"; content = "hi @ada"; metadata = none }

abbrev quiet : World rooms plain
quiet = record {
  db = [];
  log = [];
  wakes = [];
  limiter = record { buckets = []; sweep_in_progress = false };
  io_ready = true;
  env = none;
}

posting_branches_example :
    (IsRefused (create rooms plain hello (λ i. i) "c1" quiet).0
      × ((create rooms plain hello (λ i. i) "c1" quiet).1 ≡ quiet))
    ⊎ ((m : Message) × (from_ai : Bool) × (db' : List Message) × ((create rooms plain hello
            (λ i. i)
            "c1"
            quiet).0
          ≡ posted m)
        × (plain.trim hello.content ≢ "")
        × (5 ≤ 8_000)
        × (done true ≡ done true)
        × (done true ≡ done true)
        × (append hello [] ≡ done ((m, from_ai), db'))
        × HasPosted rooms plain hello m from_ai quiet
            (create rooms plain hello (λ i. i) "c1" quiet).1)
posting_branches_example = posting_branches rooms plain hello (λ i. i) "c1" quiet
