-- ===== src/PaperTrading/AutoDrive.antt =====
-- auto-drive.worker.ts: the drafts that its cycle cancels by itself, past the transactions of
-- paper-trades.service.ts.
use arbibot.Base.{◌+◌, save_row}
use arbibot.PaperTrading.Trades.{Book, PaperTrade, canceled, put_trade}

-- The copy of a draft that the worker read, as it saves it.
abbrev pub canceled_draft : PaperTrade → PaperTrade
canceled_draft d = record d { state = canceled; entity_version = d.entity_version + 1 }

-- `tradesRepo.save(draft)`: no lock and no check of the version, so every column of the row becomes that
-- of the copy.
unfoldable pub cancel_draft : PaperTrade → Book → Book
unfolding save_row
cancel_draft d b = put_trade (canceled_draft d) b
