-- ===== src/Lib.antt =====
-- PixivBiu: the logic of the web frontend and of the desktop shell around it.
--
-- The frontend (frontend/src) is a React application. Its components draw what a few plain modules
-- decide, and these of them are modelled here:
--
-- - KeepAlive.antt is frontend/src/app/keep-alive/lru.ts, the list of the pages that stay mounted.
--   `next_state` is `nextKeepAliveState`: it stamps the page that is left (`stamp`), drops what idled
--   too long (`is_fresh`), reopens or appends the page of the new location (`place`), and evicts what
--   was hidden first (`evict`). Below it, Evict is about that loop, Invariant about `IsValid`, and
--   Navigate about a whole navigation.
-- - Pagination.antt is frontend/src/lib/pagination.ts, with the record of
--   frontend/src/lib/query/page-frontier.ts: what is learned about a list by looking at its pages
--   (`advance_frontier`, in Pagination/Frontiers, Pagination/Learned and Pagination/Ended), the pager that
--   it amounts to (`pager_state_of`, `pager_upper`), and the strip of page numbers (`build_page_items`, in
--   Pagination/Items).
-- - Downloads.antt is frontend/src/features/downloads: Downloads/Types has the jobs of api.ts,
--   Downloads/Store is the class DownloadStateStore of download-store.ts, Downloads/Events is
--   `applyDownloadEvent` with task-patch.ts. Downloads/Puts has what one change of a slot does,
--   Downloads/Index the job index, Downloads/Slots the slots after an operation, and Downloads/Repeat
--   progress and status events.
-- - Viewer.antt is frontend/src/features/illusts/illust-viewer: Viewer/Stage is the reducer of
--   stage-transition.ts, which keeps the old image until the new one is decoded, with Viewer/Latest
--   about it, and Viewer/Keys the arrow keys (viewer-navigation.ts, use-viewer-keyboard.ts).
-- - Bookmarks.antt is the tag writer of frontend/src/features/illusts/bookmark-tag-writer.ts, which saves
--   the latest selection while one save runs: Bookmarks/TagWriter has its methods and the steps of its
--   asynchronous run (`advance_run`), Bookmarks/Invariant is about what it shows, and
--   Bookmarks/Settled about where a run comes to rest.
-- - Filter.antt is frontend/src/features/filter: Filter/Types is types.ts, Filter/Apply is apply.ts, and
--   Filter/Store and Filter/Writes are store.ts, its reads and its writes. Filter/Matches and
--   Filter/Applied are about the filtered list, Filter/Kept about what is read from the storage, and
--   Filter/Written about runs of the store.
-- - SearchHistory.antt is frontend/src/features/search/hooks/use-search-history.ts: SearchHistory/Hooks
--   has the mounted hooks of a tab and the item they share, SearchHistory/Refines what one update does,
--   and SearchHistory/Runs what any calls do.
-- - Selection.antt is frontend/src/features/downloads/selection-state.ts: Selection/Pool is
--   `enqueueSelection`, whose workers ask for one illustration at a time, with Selection/Tally and
--   Selection/Enqueued about it, and Selection/Store is the class IllustSelectionStore, with
--   Selection/Kept about its calls.
-- - Submissions.antt is the class ScopedSubmissions of frontend/src/features/downloads/scoped-submissions.ts:
--   Submissions/Requests has its calls and the steps of each promise, Submissions/Kept is about any run,
--   and Submissions/Settles about the end of a promise.
-- - Settings.antt is frontend/src/features/settings: Settings/Json is the configuration with flatten.ts,
--   Settings/Types the fields and views, Settings/Values is values.ts, with save-state.ts and the predicates
--   of presentation.ts, Settings/Form and Settings/Calls are use-config-form.ts with the view of
--   use-config.ts. Settings/Reconciled, Settings/Coherent and Settings/Runs are about the effect that
--   follows a view, Settings/Saved and Settings/Persisted about the edits after a save, Settings/Sent about
--   what a save sends, and Settings/Bounds about its numbers.
--   Settings/Schema is compile-schema.ts: Settings/Arranged is about the fields of one section,
--   Settings/Filed about the leaves of a schema and their categories, and Settings/Sections about the whole.
-- - Desktop.antt is the desktop shell (desktop/src), an Electron application. Desktop/Updates has its
--   updates: Updates/Store is the record of update-store.ts, Updates/Controller the state of
--   update-controller.ts and its `publish` and `fail`, Updates/Check, Updates/Download and
--   Updates/Install the three asynchronous operations, Updates/Events the driver's events and the quit
--   hooks, with `handle` for any one of them. Updates/Invariant, Updates/Preserved, Updates/Handled,
--   Updates/Handoff and Updates/Kept are about `IsValid`; Updates/Log, Updates/Logged,
--   Updates/LoggedInstall and Updates/Runs about what a run has sent and started; Updates/Vouched about the
--   hash of what is ready; Updates/Restart about the start after an installation. Updates/Observe is the
--   page's side,
--   frontend/src/features/system/desktop-update-state.ts, Updates/Arrivals is about what it hands on,
--   and Updates/Observed joins the two.
-- - Desktop/Core is the supervisor of the core process, desktop/src/core-supervisor.ts: Core/Stdout reads
--   the handshake from chunks of bytes, whose decoding (Node's `toString("utf8")`, a chunk by itself) is a
--   parameter, or from decoded text, as in the supervisor's events; Core/Supervisor has the state, `terminate` and the head of `launch`, Core/Run the rest
--   of `launch`, the events of the child, `onExit` and `stop`, with `handle` for any one of them.
--   Core/Chunks is about the output, Core/Invariant, Core/Kept and Core/Handled about `IsValid`,
--   Core/Runs about what a run spawns, and Core/Stops and Core/Stopped about the end of a stop.
-- - Desktop/Preferences is the class PreferenceStore of desktop/src/preferences.ts: Preferences/Store has it,
--   Preferences/Reopened is about what a restart finds, and Preferences/Written about one write.
--
-- The frontend's modules do not call one another. Base.antt passes on the library's names and has what
-- they share: tests on numbers and texts, lists, sets as lists without repetition, association lists
-- for JavaScript maps (in the order of insertion, as a Map has them), integers and sorting.
--
-- How JavaScript is read:
-- - A number that counts is a natural number, and ids that may be negative are integers. Numbers are
--   exact here, and in the source they are doubles, exact up to 2^53.
-- - A class is a record of its fields, and a method a function from the record to the next one. A
--   listener is a number; a set of listeners is a list of them, and a field `calls` keeps the listeners
--   called so far, in order.
-- - Identity of objects (`===`) is a parameter, `Identity`, where a result depends on it.
-- - `Date.parse`, the clock, `toLowerCase`, `trim`, the substring test of texts, `Number` and `String` of a
--   number, JSON and lengths in bytes are parameters.
-- - `Array.prototype.sort` is Base/Sort, a stable insertion by the test that the comparator is negative.
-- - A promise chain is cut at each `then`, as an asynchronous function is at each `await`: a step takes what
--   was awaited as an argument.
-- - An item of `localStorage` is what parsing it gives; whether a write to it succeeds is an argument.
--
-- Loops: all follow a list but two. The eviction of `KeepAlive.evict` drops an entry each round, so the
-- number of entries is fuel enough. The tag writer's `while` is a step
-- at each await, and four steps end it when nothing new is queued. An asynchronous operation of the
-- shell is cut at its awaits: a step takes what the awaited call gave as an argument, any other call or
-- event may come between two steps, and an operation that waits for another one is resumed by its end.
-- A stop of the core takes at most four steps of its launch and five of its own, and a promise of the
-- submissions at most four.
--
-- Not modelled: the React components and their hooks, which draw and forward events; HTTP, with the
-- schema generated from api/; the texts of the interface (frontend/src/i18n); the frontend's other
-- modules; the rest of the desktop shell, which mostly calls Electron, with the release notes that it
-- stitches (desktop/src/release-notes.ts); and the backend (cmd, internal), which is written in Go.
pub mod Base
pub mod Bookmarks
pub mod Desktop
pub mod Downloads
pub mod Filter
pub mod KeepAlive
pub mod Pagination
pub mod SearchHistory
pub mod Selection
pub mod Settings
pub mod Submissions
pub mod Viewer
