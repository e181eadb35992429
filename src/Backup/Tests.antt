-- ===== src/Backup/Tests.antt =====
-- The pruning of worker/src/backup on a few keys.
use one_mail.Base.{ℕ, ◌+◌, ◌*◌, ◌≤◌, ◌≡◌, refl, List, [], ◌∷◌, false, All, length}
use one_mail.Fleet.Metrics.{day_ms}
use one_mail.Fleet.Parse.Calendar.{digits, days_through}
use one_mail.Backup.Keys.{backup_key_date, utc_day}
use one_mail.Backup.{
  Page, Pruned, Old, expired_backup_keys, prune_page, prune_pages, prune_backups, prune_backups-Old,
}

-- 2024-03-10, a week of daily backups.
abbrev now : ℕ
now = 739320 * day_ms + 3600000

abbrev kinds : List (ℕ × List Page)
kinds =
    (
      7,
      record {
        keys = "d1/daily/2024-03-01.sql" ∷ "d1/daily/2024-03-05.sql" ∷ "other" ∷ [];
        continues = false;
      }
          ∷ [],
    )
    ∷ []

abbrev untouched : Pruned
untouched = record { deleted = []; scanned = 0 }

deletes_one : (prune_backups now kinds untouched).deleted ≡ "d1/daily/2024-03-01.sql" ∷ []
unfolding prune_backups prune_pages prune_page expired_backup_keys backup_key_date utc_day digits
    days_through
deletes_one = refl

prune_backups-Old_example :
    All (Old now kinds) (prune_backups now kinds untouched).deleted
    × (length (prune_backups now kinds untouched).deleted ≤ 200)
prune_backups-Old_example = prune_backups-Old now kinds
