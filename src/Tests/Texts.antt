-- ===== src/Tests/Texts.antt =====
-- Texts, settings, generated deltas and the echo command.
use data_spinner.Base.{ℕ, ◌≡◌, refl, arith, true, false, some, List, [], ◌∷◌, ◌++◌}
use data_spinner.Delta.{MdDelta}
use data_spinner.Builder.{Publisher}
use data_spinner.Builder.Entries.{all_entries, IsBuilder}
use data_spinner.Builder.Adds.{IsPublisher}
use data_spinner.Generator.{new_builder, send_generated_delta, send_generated_subtype_delta}
use data_spinner.Generator.Whole.{int_entries}
use data_spinner.Generator.Symbols.{Groups, send_generated_delta-Groups}
use data_spinner.Generator.Subtype.{send_generated_subtype_delta_last}
use data_spinner.Text.{codes, join, join_onto, split, stoi, to_string, pos, negsuc, with_commas}
use data_spinner.Text.Commas.{grouped, with_commas-grouped}
use data_spinner.Text.Split.{split-join, terminated}
use data_spinner.Text.Numbers.{stoi-to_string}
use data_spinner.Config.{initial_cfg, load_cfg}
use data_spinner.Config.Settings.{Setting, comment, text, number, user, host, stat_upd_every_nsec}
use data_spinner.Config.Load.{meanings, lines_of, load_cfg-meanings}
use data_spinner.Snapshot.{Doubles, regenerate_ref_data}
use data_spinner.Snapshot.Known.{Regenerated, regenerate_ref_data-Regenerated}
use data_spinner.Admin.{AdminServerConnection, server_menu}
use data_spinner.Tests.Data.{a_delta, blank_ref}
use data_spinner.Tests.Dispatch.{a_server}

two_words : join ((97 ∷ []) ∷ (98 ∷ 99 ∷ []) ∷ []) 32 ≡ some (97 ∷ 32 ∷ 98 ∷ 99 ∷ [])
unfolding join join_onto
two_words = refl

split-join_example : split (97 ∷ 32 ∷ 98 ∷ 99 ∷ []) 32 ≡ (97 ∷ []) ∷ (98 ∷ 99 ∷ []) ∷ []
split-join_example =
    split-join (97 ∷ []) ((98 ∷ 99 ∷ []) ∷ []) 32 (97 ∷ 32 ∷ 98 ∷ 99 ∷ []) (omega arith) (λ e. cc)
      two_words

stoi-to_string_example : stoi (to_string (negsuc 41)) ≡ some (negsuc 41)
stoi-to_string_example = stoi-to_string (negsuc 41) (omega arith)

-- A comment, a host, a number that is 0, and a user.
abbrev some_settings : List Setting
some_settings =
    comment (104 ∷ [])
    ∷ text host (codes "localhost")
    ∷ number stat_upd_every_nsec (pos 0)
    ∷ user (98 ∷ [])
    ∷ []

load_cfg-meanings_example :
    load_cfg (some (terminated 10 (lines_of (97 ∷ []) some_settings))) (97 ∷ []) initial_cfg
    ≡ some (true, meanings some_settings initial_cfg)
load_cfg-meanings_example =
    load_cfg-meanings 97 [] (omega arith) some_settings initial_cfg (omega arith)
      (omega arith, ((omega arith, λ e. cc), (omega arith, ((omega arith, λ e. cc), tt))))

-- A publisher that keeps every delta.
abbrev keeps_all : Publisher (List MdDelta)
keeps_all = record { publish = λ d ds. (true, ds ++ (d ∷ [])) }

keeps_all-refuses :
    (d : MdDelta) (ds : List MdDelta)
    → (keeps_all.publish d ds).0 ≡ false
    → (keeps_all.publish d ds).1 ≡ ds
keeps_all-refuses d ds e = absurd (ground (arith, e))

abbrev keeps_all_laws : IsPublisher keeps_all
keeps_all_laws = record {
  published = λ ds. ds;
  takes = λ d ds e. refl;
  refuses = keeps_all-refuses;
}

a_delta-IsBuilder : IsBuilder (new_builder a_delta)
a_delta-IsBuilder = record {
  int_idx_size = refl;
  int_val_size = refl;
  dbl_idx_size = refl;
  dbl_val_size = refl;
  ints_fit = omega arith;
  dbls_fit = omega arith;
}

abbrev same_times : ℕ → ℕ
same_times i = i

send_generated_delta-Groups_example :
    (ds : List MdDelta) × (send_generated_delta keeps_all same_times 9 a_delta
        ((77 ∷ []) ∷ (78 ∷ []) ∷ [])
        20
        []
      ≡ [] ++ ds)
    × Groups same_times 20 ((77 ∷ []) ∷ (78 ∷ []) ∷ []) ds
send_generated_delta-Groups_example =
    send_generated_delta-Groups keeps_all keeps_all_laws (λ d p. refl) same_times 9 a_delta
      ((77 ∷ []) ∷ (78 ∷ []) ∷ []) 20 [] a_delta-IsBuilder

send_generated_subtype_delta_last_example :
    (e : MdDelta) × (send_generated_subtype_delta keeps_all same_times 9 a_delta
        ((77 ∷ []) ∷ (78 ∷ []) ∷ [])
        5
        105
        []
      ≡ [] ++ (e ∷ []))
    × (e.symbol ≡ 78 ∷ [])
    × (all_entries (e ∷ []) ≡ int_entries 5 1)
send_generated_subtype_delta_last_example =
    send_generated_subtype_delta_last keeps_all same_times 9 keeps_all_laws (λ d p. refl) a_delta
      (77 ∷ []) ((78 ∷ []) ∷ []) 5 [] (omega arith) a_delta-IsBuilder

abbrev doubles : Doubles
doubles = record { next = λ v. v; first = λ i. i }

abbrev an_admin : AdminServerConnection
an_admin = record {
  line = record { peer = a_server.peer; sends = 0 };
  menu = server_menu;
  snapshot = [];
}

regenerate_ref_data-Regenerated_example :
    Regenerated
      ((77 ∷ []) ∷ (78 ∷ []) ∷ [])
      []
      (regenerate_ref_data doubles blank_ref ((77 ∷ []) ∷ (78 ∷ []) ∷ []) [])
regenerate_ref_data-Regenerated_example =
    regenerate_ref_data-Regenerated doubles blank_ref ((77 ∷ []) ∷ (78 ∷ []) ∷ []) []

with_commas-grouped_example : with_commas (codes "1234567") ≡ grouped 7 (codes "1234567")
with_commas-grouped_example = with_commas-grouped (codes "1234567")
