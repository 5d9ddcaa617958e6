-- ===== src/Onboard/Tests.antt =====
-- Tables taken in and out, at concrete inputs.
use crypto_cdc_pipeline.Base.{◌≡◌, refl, true, false, [], ◌∷◌}
use crypto_cdc_pipeline.Onboard.{
  Args, Source, World, anchor_line, topic_line, other_line, anchor_section, table_section, perform,
  onboard, bare, installation, removal, dry, apply,
}
use crypto_cdc_pipeline.Onboard.Stored.{backed}
use crypto_cdc_pipeline.Onboard.Undo.{is_told}

abbrev args : Args
args = record { table = "crypto_db.orders"; dry_run = false; no_snapshot = false; remove = false }

abbrev source : Source
source = record {
  cols = record { name = "id"; pk = true } ∷ [];
  binlog_row = true;
  signal = true;
  running = true;
}

abbrev slow : Source
slow = record source { running = false }

abbrev world : World
world = record {
  include = "crypto_db.fills" ∷ [];
  topics = "crypto_db.fills" ∷ [];
  targets = "fills" ∷ [];
  queues = "fills" ∷ [];
  views = "fills" ∷ [];
  topics_sh = other_line 1 ∷ anchor_line ∷ topic_line "crypto_db.fills" ∷ [];
  sources_yml = table_section "fills" ∷ anchor_section ∷ [];
  signals = [];
}

dry_test : onboard (record args { dry_run = true }) source world ≡ ([], dry)
unfolding onboard
dry_test = refl

bare_test : bare "crypto_db.fills" ≡ "fills"
unfolding bare
bare_test = refl

-- Taking out the table of the same name of another database drops the objects of the captured one.
collision_test :
    backed "crypto_db.fills" (
      perform
        (onboard (record args { table = "other_db.fills"; remove = true }) source world).0
        world)
    ≡ false
unfolding onboard removal apply bare
collision_test = refl

-- The table that was the only one leaves an empty list to the connector.
empty_test :
    (perform
      (onboard (record args { table = "crypto_db.fills"; remove = true }) source world).0
      world).include
    ≡ []
unfolding onboard removal apply
empty_test = refl

slow_test : is_told (onboard args slow world).1 ≡ true
unfolding onboard installation
slow_test = refl
