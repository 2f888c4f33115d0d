-- ===== src/Round/Tests.antt =====
-- Rounds over the sample chain.
use solidity_contracts.Base.{
  ℕ, ◌≡◌, ◌<◌, refl, Bool, true, false, not, List, [], ◌∷◌, ◌++◌, some, String, filter,
}
use solidity_contracts.Base.Int.{ℤ, pos}
use solidity_contracts.IgnoreMemory.{World}
use solidity_contracts.Bot.Samples.{Content, disk}
use solidity_contracts.Round.{OdosConfig}
use solidity_contracts.Round.Users.{ignored}

abbrev config : OdosConfig ℤ
config = record {
  liquidating_batch_size = 2;
  health_factor_batch_size = 1;
  health_factor_threshold = pos 1;
  profitable_threshold_in_usd = pos 1;
}

-- "0xb" is ignored until 5000.
abbrev remembering : World Content
remembering = record {
  self = record {
    memory = ("0xb", 5000) ∷ [];
    ignore_duration = 180000;
    state_dir_path = some "state";
    is_initialized = true;
  };
  fs = record { dirs = "state" ∷ []; files = [] };
}

abbrev users : List String
users = "0xb" ∷ "0xc" ∷ "0xf" ∷ "0xa" ∷ []

three_left : filter (λ u. not (ignored disk 4000 remembering u)) users ≡ "0xc" ∷ "0xf" ∷ "0xa" ∷ []
unfolding solidity_contracts.Base.Dict.lookup
three_left = refl
