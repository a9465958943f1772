-- ===== src/Office/Memory.antt =====
-- The services over tables in memory, with simple functions on texts and no network.
use one_crew.Common.{true, false, none, some, [], ◌∷◌}
use one_crew.Common.Texts.{returns, throws}
use one_crew.Budget.{natural, at_most}
use one_crew.WakeChain.{default_wake_env}
use one_crew.Tasks.Team.{Teammate}
use one_crew.Tools.Analysis.{Js}
use one_crew.Office.{Outside, Office}
use one_crew.Tasks.Memory as TaskMemory
use one_crew.Messages.Memory as MessageMemory
use one_crew.Approvals.Memory as ApprovalMemory
use one_crew.Bridge.Codec.{codec}
use one_crew.Tasks.Tally.{tally}

abbrev pub plain_js : Js
plain_js = record {
  trim = λ s. s;
  lower = λ s. s;
  split_lines = λ s. s ∷ [];
  stringify = codec.stringify;
  decimal = tally;
}

abbrev pub outside : Outside
outside = record {
  tasks = TaskMemory.memory;
  messages = MessageMemory.rooms;
  approvals = ApprovalMemory.memory;
  api = MessageMemory.plain;
  js = plain_js;
  enc = record {
    uri = λ s. s;
    decimal = tally;
    from_base64 = λ s. [];
    from_utf8 = λ bs. "";
    to_utf8 = λ s. [];
  };
  zod_message = λ name v. "(root): bad";
  explain_task = λ r. "task";
  explain_post = λ p. "post";
  explain_db = λ e. "db";
  fetch_search = λ q. throws "offline";
  fetch_docs = λ url. throws "offline";
  search_env = record { is_serper = false; tavily_api_key = none; serper_api_key = none };
  budget_env = record { limit = at_most 1_000; input_price = 1; output_price = 1 };
  wake_env = default_wake_env;
  web_search_cost = natural 5;
  handoff_enabled = true;
  clock = λ i. i;
  aborted = false;
}

abbrev pub hopper : Teammate
hopper = record { id = "hopper"; name = "Hopper" }

abbrev pub office : Office outside
office = record {
  tasks = record { db = record { rows = []; count = 0 }; log = []; io_ready = true; env = none };
  messages = record {
    db = [];
    log = [];
    wakes = [];
    limiter = record { buckets = []; sweep_in_progress = false };
    io_ready = true;
    env = none;
  };
  approvals = record { db = []; log = []; io_ready = true; env = none };
  roster = record {
    by_id = λ id. returns (some hopper);
    by_name = λ name. returns none;
    shares_channel = λ a b. returns true;
  };
  channels = returns [];
  tasks_of = λ id. returns [];
  notices = [];
  budget = record { today = 0; reset_at = 86_400_000 };
  chains = [];
  loop = record { in_flight = []; waiting = [] };
  now = 7;
  uuid = "c1";
}
