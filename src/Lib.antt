-- ===== src/Lib.antt =====
-- Verification library of the browser-side code of MeadowOps: two Next.js applications, orbynadmin
-- (frontend/subsystem_1/orbynadmin, called S1 below) and the Builder's application
-- (frontend/subsystem_2/shadcn-dashboard/nextjs-version, called S2), in front of one Python backend.
--
-- Parts and files.
-- Draft: composer-draft.ts of both applications, over an interface for localStorage (WebStorage).
--   Draft/Laws has the effect of each call, Draft/Refine the map from threads to texts that runs of calls
--   implement, Draft/ListStorage an instance that shows that the laws can hold.
-- Chat: types.ts. Chat/Composer is the composer of S1's src/app/(app)/chat/components/thread-view.tsx
--   (fireSync, the effect on the thread, handleDraftChange, handleSend, handleFileSelected, the delete
--   dialog), Chat/Composer/Steps the events with the conditions under which the controls are rendered.
--   Chat/Inbox is chat-inbox.tsx (applyThreads, selectThread, handleSend, removeThread, handleFrame),
--   Chat/Inbox/Steps its events. Chat/Socket is use-chat-socket.ts. The inbox calls the draft buffer when
--   a thread is removed, and the socket's frames are events of the inbox. Chat/Assist is S2's
--   ai-assist-panel.tsx beside the same composer (src/app/(dashboard)/mail/components), Chat/Reflection
--   S1's reflection-form.tsx, Chat/NewThread S2's new-thread-dialog.tsx.
-- Session: S1's src/proxy.ts and S2's src/middleware.ts, src/app/(dashboard)/layout.tsx and
--   src/app/api/session-expired/route.ts, with a browser that follows redirects; Session/Login is
--   app/api/login/route.ts of both, Session/Logout app/api/logout/route.ts and components/nav-user.tsx.
-- Api: the lib/*-api.ts clients, one definition per exported function; Api/Uri is encodeURIComponent
--   on bytes, Api/Fetch the guard that all clients share, Api/Routes the paths with an id, Api/Dots what a
--   URL parser leaves of them.
-- Handlers: the route handlers under src/app/api of both, one definition for each (Handlers/Orbynadmin,
--   Handlers/Builder), over the clients of Api; Handlers/Relay has the ways in which they relay an
--   answer, Handlers/Threads the one client that changes an answer. Login, logout and session-expired are in Session.
-- Query: S1's src/components/query-playground.tsx; Query/Schema is schema-browser.tsx beside it.
-- Simulation: S2's src/app/(dashboard)/simulation/repopulate-panel.tsx.
-- MasterData: S1's src/components/master-data-crud.tsx.
-- Actions: the buttons and dialogs that post an action: Actions/Panel is the component, over a table
--   of actions (ActionTable), Actions/Form a dialog that posts a form; Actions/Decision and its Dialogs
--   are S1's decision-actions.tsx and propose-decision-dialog.tsx, Actions/Scenario is S2's
--   scenario-actions.tsx. The backend's transition tables (backend/app/domain/ledger.py and scenario.py)
--   are the contract of the buttons.
-- Authoring: S2's src/app/(dashboard)/scenarios: types.ts, and from [id]/components Authoring/Notes
--   (ground-truth-edit-form.tsx, builder-notes-form.tsx), Authoring/Review (evaluation-panel.tsx,
--   portfolio-export-dialog.tsx; human-review-section.tsx in Authoring/Review/Human), Authoring/Expected
--   (expected-query-panel.tsx, regenerate-button.tsx); Authoring/Create is new/components/
--   create-scenario-form.tsx.
-- Feed: S1's lib/notification-feed.ts, components/notifications-menu.tsx and app/(app)/notifications,
--   and S2's dashboard/components/notifications-panel.tsx.
-- Theme: S2's hooks/use-theme-manager.ts (Theme), and components/theme-customizer with
--   contexts/sidebar-context.tsx (Theme/Customizer); Theme/Config is S1's lib/theme-config.ts and the
--   provider of components/theme-customizer.tsx.
-- Base: what the parts share, with Base/Json for parsed JSON, Base/Response for answers to fetch,
--   Base/Lines for the lines of a text, and String.prototype.trim.
--
-- How code becomes definitions. A component's state and refs are a record. A handler that waits for a
-- response is cut at the wait: one function up to it, one for each answer (ok, refused, exception), and
-- a run is any list of events, so any order of answers, timers and presses. Events that cannot happen,
-- as an answer with no request on its way or a press of a disabled button, change nothing. Functions
-- recurse on their arguments; the browser of Session follows at most n redirects, and
-- Session.Gates.browse-terminates shows that four are enough.
--
-- Parameters: localStorage (WebStorage), the root element's inline style (InlineStyle), the URL parser
-- of fetch, the backend's answers and how it normalises a narrative and a query, the routing of pages
-- to the dashboard group and the role of a token, how JavaScript prints a value that is no text or
-- reads it as a Boolean, JSON.stringify, and toLowerCase. Of the dialogs' library only this is relied on: an open
-- dialog is modal. A handler of a payload, and a page that shows an answer's body, are modelled for the
-- fields that the other side sends.
--
-- Not modelled: rendering and styles, the UI kit, charts, the stored theme of
-- orbynadmin, the import dialog's regular expressions, the pages of the
-- template that keep no data, and the backend but for its two transition tables and the merge of a
-- ground truth with what its schema refuses.
pub mod Base
pub mod Draft
pub mod Chat
pub mod Session
pub mod Api
pub mod Handlers
pub mod Query
pub mod Actions
pub mod Authoring
pub mod Simulation
pub mod Theme
pub mod MasterData
pub mod Feed
